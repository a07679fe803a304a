-- ===== src/Dump/Ssh/Sessions/Hosts.antt =====
-- What the capture says of each host: the algorithms that its messages offer.
use pqcscan.Base.{◌≡◌, ◌≢◌, refl, ◌||◌, List, [], ◌∷◌, Bytes, arith}
use pqcscan.Base.Dict.{bytes_eq, contains, lookup-insert_self, lookup-insert_ne}
use pqcscan.Dump.Ssh.Kexinit.{KexInit}
use pqcscan.Dump.Ssh.Sessions.{LinkedHashSet, HostCaps, insert_all, capabilities, update_host_caps}

module _ (sets : LinkedHashSet) where
  open sets use {Set, insert_into, elements, contains-insert}

  contains-insert_all :
      (algs : List Bytes) (s : Set) (b : Bytes)
      → contains (elements (insert_all sets algs s)) b
        ≡ (contains algs b || contains (elements s) b)
  unfolding insert_all contains
  contains-insert_all [] s b = refl
  contains-insert_all (alg ∷ algs) s b =
      ground (arith, contains-insert_all algs (insert_into alg s) b, contains-insert alg b s)

  -- After a message of a host, the host supports what it supported before and what the message
  -- offers, and nothing else.
  pub contains-update_host_caps :
      (caps : HostCaps sets) (host : Bytes) (kex : KexInit) (b : Bytes)
      → contains (elements (capabilities sets host (update_host_caps sets caps host kex))) b
        ≡ (contains kex.kex_algorithms b || contains (elements (capabilities sets host caps)) b)
  unfolding update_host_caps
  contains-update_host_caps caps host kex b =
      rw (lookup-insert_self host _ caps, capabilities)
        (contains-insert_all kex.kex_algorithms (capabilities sets host caps) b)

  -- A message of one host leaves what is known of the others.
  pub update_host_caps_others :
      (caps : HostCaps sets) (host other : Bytes) (kex : KexInit)
      → host ≢ other
      → capabilities sets other (update_host_caps sets caps host kex) ≡ capabilities sets other caps
  unfolding update_host_caps
  update_host_caps_others caps host other kex h =
      rw (lookup-insert_ne host other _ caps h, capabilities)
