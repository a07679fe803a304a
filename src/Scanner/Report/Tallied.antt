-- ===== src/Scanner/Report/Tallied.antt =====
-- What one more result does to the maps, sets and counters of a report, stated by lists.
use pqcscan.Base.{
  ℕ, suc, ◌≡◌, refl, ap, sym, ◌∙◌, Bool, false, ◌||◌, List, [], ◌∷◌, ◌++◌, arith, Bytes, equal,
  equal_iff, length, length-append, if◌then◌else◌,
}
use pqcscan.Base.Dict.{lookup, insert, contains, lookup-insert, bytes_eq}
use pqcscan.Scanner.Report.{Finding, btree_insert, Tally, results_of, is_none, add_result}

-- How many results pass a test, and those of one host, in their order.
abbrev pub count_if : (Finding → Bool) → List Finding → ℕ
count_if f [] = 0
count_if f (r ∷ rs) = if f r then suc (count_if f rs) else count_if f rs

abbrev pub listed : Bytes → List Finding → List Finding
listed host [] = []
listed host (r ∷ rs) = if equal r.targetspec.host host then r ∷ listed host rs else listed host rs

abbrev pub has_host : Bytes → List Finding → Bool
has_host host [] = false
has_host host (r ∷ rs) = equal r.targetspec.host host || has_host host rs

count_if-concat :
    (f : Finding → Bool) (rs : List Finding) (r : Finding)
    → count_if f (rs ++ (r ∷ [])) ≡ (if f r then suc (count_if f rs) else count_if f rs)
count_if-concat f [] r = refl
count_if-concat f (q ∷ rs) r = ground (arith, count_if-concat f rs r)

listed-concat :
    (host : Bytes) (rs : List Finding) (r : Finding)
    → listed host (rs ++ (r ∷ []))
      ≡ (if equal r.targetspec.host host then listed host rs ++ (r ∷ []) else listed host rs)
listed-concat host [] r = refl
listed-concat host (q ∷ rs) r = ground (arith, listed-concat host rs r)

has_host-concat :
    (host : Bytes) (rs : List Finding) (r : Finding)
    → has_host host (rs ++ (r ∷ [])) ≡ (equal r.targetspec.host host || has_host host rs)
has_host-concat host [] r = refl
has_host-concat host (q ∷ rs) r = ground (arith, has_host-concat host rs r)

pub contains-btree_insert :
    (a b : Bytes) (xs : List Bytes) → contains (btree_insert a xs) b ≡ (equal a b || contains xs b)
unfolding contains btree_insert
contains-btree_insert a b [] = refl
contains-btree_insert a b (x ∷ xs) = ground (arith, contains-btree_insert a b xs, equal_iff x a)

pub record IsTally (rs : List Finding) (t : Tally) : Type 0 where
  pub total : t.total_count ≡ length rs
  pub success : t.success_count ≡ count_if (λ r. is_none r.error) rs
  pub pqc : t.pqc_supported_count ≡ count_if (λ r. r.pqc_supported) rs
  pub lists : (host : Bytes) → results_of (lookup host t.map) ≡ listed host rs
  pub hosts : (host : Bytes) → contains t.hosts host ≡ has_host host rs

results-insert :
    (h host : Bytes) (new : List Finding) (m : List (Bytes × List Finding))
    → results_of (lookup host (insert h new m))
      ≡ (if equal h host then new else results_of (lookup host m))
unfolding results_of
results-insert h host new m = ground (arith, lookup-insert h host new m)

pub add_result-IsTally :
    (r : Finding) (rs : List Finding) (t : Tally)
    → IsTally rs t
    → IsTally (rs ++ (r ∷ [])) (add_result r t)
unfolding add_result
add_result-IsTally r rs t i = record {
  total = omega (arith, i.total, length-append rs (r ∷ []));
  success = ground (arith, i.success, count_if-concat (λ r. is_none r.error) rs r);
  pqc = ground (arith, i.pqc, count_if-concat (λ r. r.pqc_supported) rs r);
  lists = λ host.
      let h = r.targetspec.host in
      ground (
        arith,
        results-insert h host (results_of (lookup h t.map) ++ (r ∷ [])) t.map,
        equal_iff h host,
        i.lists host,
        listed-concat host rs r,
      );
  hosts = λ host.
      contains-btree_insert r.targetspec.host host t.hosts
      ∙ ap (λ b. equal r.targetspec.host host || b) (i.hosts host)
      ∙ sym (has_host-concat host rs r);
}
