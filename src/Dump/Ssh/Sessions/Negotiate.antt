-- ===== src/Dump/Ssh/Sessions/Negotiate.antt =====
-- What `negotiate` chooses, against a description of the choice.
use pqcscan.Base.{
  ◌≡◌, refl, ap, true, false, Option, none, some, List, [], ◌∷◌, ◌++◌, Bytes, Bool-cases, inl, inr,
  All,
}
use pqcscan.Base.Dict.{bytes_eq, contains}
use pqcscan.Dump.Ssh.Sessions.{negotiate}

-- `alg` is the client's, the server has it, and the server has none of the client's before it.
pub record IsFirstCommon (client server : List Bytes) (alg : Bytes) : Type 0 where
  pub before : List Bytes
  pub after : List Bytes
  pub splits : client ≡ before ++ (alg ∷ after)
  pub common : contains server alg ≡ true
  pub first : All (λ b. contains server b ≡ false) before

abbrev pub IsChoice : List Bytes → List Bytes → Option Bytes → Type 0
IsChoice client server none = All (λ b. contains server b ≡ false) client
IsChoice client server (some alg) = IsFirstCommon client server alg

IsChoice-cons :
    (alg : Bytes) (client server : List Bytes) (o : Option Bytes)
    → contains server alg ≡ false
    → IsChoice client server o
    → IsChoice (alg ∷ client) server o
IsChoice-cons alg client server none h c = (h, c)
IsChoice-cons alg client server (some a) h c = record {
  before = alg ∷ c.before;
  after = c.after;
  splits = ap (◌∷◌ alg) c.splits;
  common = c.common;
  first = (h, c.first);
}

-- The choice is the client's first algorithm that the server has, and there is none exactly when
-- the server has none of the client's.
pub negotiate-IsChoice :
    (client server : List Bytes) → IsChoice client server (negotiate client server)
unfolding negotiate
negotiate-IsChoice [] server = tt
negotiate-IsChoice (alg ∷ client) server = elim (Bool-cases (contains server alg)) [
  | inl hit ↦
      rw hit (record { before = []; after = client; splits = refl; common = hit; first = tt })
  | inr miss ↦ rw miss (IsChoice-cons alg client server _ miss (negotiate-IsChoice client server))
]

negotiate-append :
    (before rest server : List Bytes)
    → All (λ b. contains server b ≡ false) before
    → negotiate (before ++ rest) server ≡ negotiate rest server
unfolding negotiate
negotiate-append [] rest server h = refl
negotiate-append (b ∷ before) rest server h = rw h.0 (negotiate-append before rest server h.1)

-- An algorithm that fits the description is the one that is chosen.
pub negotiate-IsFirstCommon :
    (client server : List Bytes) (alg : Bytes)
    → IsFirstCommon client server alg
    → negotiate client server ≡ some alg
unfolding negotiate
negotiate-IsFirstCommon client server alg c =
    rw (c.splits, negotiate-append c.before (alg ∷ c.after) server c.first, c.common, negotiate)
