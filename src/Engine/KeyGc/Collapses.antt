-- ===== src/Engine/KeyGc/Collapses.antt =====
-- What is left of histories and intents once versions are removed, for src/engine.rs's collapse of
-- final tombstones.
use mathlib.Core.List.{reverse, reverse-cons}
use nexir_mvcc_core.Prelude.{
  ℕ, zero, suc, ◌≤◌, ◌<◌, Bool, true, false, List, [], ◌∷◌, ◌++◌, map, ◌≡◌, refl, ap, ◌∙◌, arith,
  ◌==◌, ltb, take, length, filter_by, All, All-imp, for_each, ◌||◌, if◌then◌else◌,
}
use nexir_mvcc_core.Ord.{nat_ord, bytes_ord, bytes_eq, bytes_eq_iff}
use nexir_mvcc_core.BTreeMap.{remove}
use nexir_mvcc_core.Types.{Timestamp, Key}
use nexir_mvcc_core.Backend.Reference.{View, History, drop_version}
use nexir_mvcc_core.Backend.Reference.Histories.{UpTo}

abbrev pub mem : Timestamp → List Timestamp → Bool
mem t [] = false
mem t (x ∷ xs) = (x == t) || mem t xs

pub mem-append :
    (t : Timestamp) (xs : List Timestamp) (x : Timestamp) → mem t (xs ++ x ∷ []) ≡ mem t (x ∷ xs)
mem-append t [] x = refl
mem-append t (y ∷ xs) x = ground (arith, mem-append t xs x)

pub mem-reverse : (t : Timestamp) (xs : List Timestamp) → mem t (reverse xs) ≡ mem t xs
mem-reverse t [] = refl
mem-reverse t (x ∷ xs) =
    rw reverse-cons (mem-append t (reverse xs) x ∙ ap (λ b. (x == t) || b) (mem-reverse t xs))

pub mem-older :
    (t c : Timestamp) (h : History)
    → t < c
    → mem t (map (λ e. e.0) h) ≡ true
    → mem t (map (λ e. e.0) (filter_by (λ e. ltb e.0 c) h)) ≡ true
mem-older t c [] q m = m
mem-older t c (x ∷ h) q m = ground (arith, mem-older t c h q)

pub mem-entries : (h : History) → All (λ x. mem x.0 (map (λ e. e.0) h) ≡ true) h
mem-entries [] = tt
mem-entries (x ∷ h) = (ground arith, All-imp (λ y m. ground (arith, m)) h (mem-entries h))

All-remove :
    (t : Timestamp) (tss : List Timestamp) (h : History)
    → All (λ x. mem x.0 (t ∷ tss) ≡ true) h
    → All (λ x. mem x.0 tss ≡ true) (remove t h)
unfolding remove
All-remove t tss [] a = tt
All-remove t tss (x ∷ h) (p, a) = ground (arith, All-remove t tss h a)

pub for_each-remove-nil :
    (tss : List Timestamp) (h : History)
    → All (λ x. mem x.0 tss ≡ true) h
    → for_each remove tss h ≡ []
for_each-remove-nil [] [] a = refl
for_each-remove-nil [] (x ∷ h) (p, a) = cc
for_each-remove-nil (t ∷ tss) h a = for_each-remove-nil tss (remove t h) (All-remove t tss h a)

pub take-whole : {A : Type 0} (n : ℕ) (xs : List A) → length (take n xs) < n → take n xs ≡ xs
take-whole zero xs q = ground arith
take-whole (suc n) [] q = refl
take-whole (suc n) (x ∷ xs) q = ground (arith, take-whole n xs)

All-both :
    {A : Type 0} {P Q R : A → Type 0} (f : (x : A) → P x → Q x → R x) (xs : List A)
    → All P xs
    → All Q xs
    → All R xs
All-both f [] a b = tt
All-both f (x ∷ xs) (p, a) (q, b) = (f x p q, All-both f xs a b)

mem-collapsed :
    (t c : Timestamp) (h : History)
    → t ≤ c
    → mem t (map (λ e. e.0) h) ≡ true
    → mem t (c ∷ reverse (map (λ e. e.0) (filter_by (λ e. ltb e.0 c) h))) ≡ true
mem-collapsed t c h q m =
    ground
      (arith, mem-older t c h, m, mem-reverse t (map (λ e. e.0) (filter_by (λ e. ltb e.0 c) h)))

-- with its newest version and all its older ones removed, a history is empty
pub collapse-nil :
    (c : Timestamp) (h : History)
    → UpTo c h
    → for_each remove (reverse (map (λ e. e.0) (filter_by (λ e. ltb e.0 c) h))) (remove c h) ≡ []
collapse-nil c h u =
    for_each-remove-nil (c ∷ reverse (map (λ e. e.0) (filter_by (λ e. ltb e.0 c) h))) h
      (All-both (λ x q m. mem-collapsed x.0 c h q m) h u (mem-entries h))

pub history-drop_versions :
    (k key : Key) (tss : List Timestamp) (w : View)
    → (for_each (drop_version key) tss w).history_of k
      ≡ (if bytes_eq key k then for_each remove tss (w.history_of k) else w.history_of k)
unfolding drop_version
history-drop_versions k key [] w = ground arith
history-drop_versions k key (t ∷ tss) w =
    ground (arith, history-drop_versions k key tss (drop_version key t w), bytes_eq_iff key k)

pub intent-drop_versions :
    (k key : Key) (tss : List Timestamp) (w : View)
    → (for_each (drop_version key) tss w).intent_of k ≡ w.intent_of k
unfolding drop_version
intent-drop_versions k key [] w = refl
intent-drop_versions k key (t ∷ tss) w = intent-drop_versions k key tss (drop_version key t w)
