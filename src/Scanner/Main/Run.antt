-- ===== src/Scanner/Main/Run.antt =====
-- `scan_runner` of pqcscan/src/scan.rs as `main` calls it: the runner's steps, in which each target
-- is scanned by the scan of the options' type. What the runtime and the network do are parameters.
use pqcscan.Base.{ℕ, ◌≡◌, true, Option, none, some, Bytes, Outcome, ok, panic, hang}
use pqcscan.Scanner.Target.{Target}
use pqcscan.Scanner.Net.{Network}
use pqcscan.Scanner.Report.{ScanResult, Scan, ssh, tls}
use pqcscan.Scanner.Runner.{Runner, start, Reach}
use pqcscan.Scanner.Ssh.Scan.{Stream, ssh_scan_target}
use pqcscan.Scanner.Tls.Scan.{TlsStream, tls_scan_target}
use pqcscan.Scanner.Main.{Config, ScanOptions, MainError}

-- `SshNet` and `TlsNet` hold of the networks that a scan of a target may meet.
module _ (SocketAddr : Type 0) (display : SocketAddr → Bytes)
    (SshNet : Target → Network SocketAddr Stream → Type 0)
    (TlsNet : Target → (ℕ → Network SocketAddr TlsStream) → Type 0) where
  -- `match scan_type`: how a task's scan of a target can end.
  pub data ScanEnds (config : Config) (scan : ScanOptions) (target : Target)
      (end : Outcome (Unit {0}) ScanResult) : Type 0 where
    tls_end :
        (net : ℕ → Network SocketAddr TlsStream)
        → scan.scan_type ≡ tls
        → TlsNet target net
        → tls_scan_target SocketAddr display config.tls_config config.connection_timeout net target
            scan.scan_hybrid_algos_only scan.scan_nonpqc_algos
          ≡ end
        → ScanEnds config scan target end
    ssh_end :
        (net : Network SocketAddr Stream)
        → scan.scan_type ≡ ssh
        → SshNet target net
        → ssh_scan_target SocketAddr display config.ssh_config.kex_algos config.connection_timeout
            net target
          ≡ end
        → ScanEnds config scan target end

  -- A scan of the target can return the result, or panic.
  abbrev pub CanReturn : Config → ScanOptions → Target → ScanResult → Type 0
  CanReturn config scan target r = ScanEnds config scan target (ok r)

  abbrev pub CanPanic : Config → ScanOptions → Target → Type 0
  CanPanic config scan target = ScanEnds config scan target panic

  module _ (Time : Type 0) where
    -- What the runtime did: the steps to the end of the collecting loop, and the clock.
    pub record Run (config : Config) (scan : ScanOptions) : Type 0 where
      pub last : Runner ScanResult
      pub steps :
          Reach ScanResult
            (CanReturn config scan)
            (CanPanic config scan)
            (start ScanResult scan.num_threads scan.targets)
            last
      pub finished : last.finished ≡ true
      pub start_time : Time
      pub end_time : Time

    module _ (crate_version : Bytes) where
      abbrev pub scan_of : (config : Config) (scan : ScanOptions) → Run config scan → Scan Time
      scan_of config scan run = record {
        results = run.last.results;
        start_time = run.start_time;
        end_time = run.end_time;
        version = crate_version;
        scan_type = scan.scan_type;
      }

      -- `runtime` is `none` where the collecting loop never ends.
      unfoldable pub scan_runner :
          ((config : Config) (scan : ScanOptions) → Option (Run config scan))
          → Config
          → ScanOptions
          → Outcome MainError (Scan Time)
      scan_runner runtime config scan = elim (runtime config scan) [
        | none ↦ hang
        | some run ↦ ok (scan_of config scan run)
      ]
