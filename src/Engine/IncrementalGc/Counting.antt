-- ===== src/Engine/IncrementalGc/Counting.antt =====
-- How many versions the removals of a page of timestamps take from a history.
use mathlib.Core.List.{reverse, reverse-cons}
use nexir_mvcc_core.Prelude.{
  ℕ, zero, suc, ◌+◌, true, false, not, ◌&&◌, Option, some, List, [], ◌∷◌, ◌++◌, map, ◌≡◌, refl, sym,
  ap, ◌∙◌, inl, inr, arith, ◌==◌, ltb, take, length, filter_by, next_back, Bool-cases, Option-cases,
  All, All-imp, for_each,
}
use nexir_mvcc_core.Ord.{nat_ord, ◌≺◌}
use nexir_mvcc_core.BTreeMap.{remove, IsSorted}
use nexir_mvcc_core.BTreeMap.Laws.{remove-IsSorted}
use nexir_mvcc_core.Types.{Timestamp, Value}
use nexir_mvcc_core.Backend.Reference.{History, latest}
use nexir_mvcc_core.Backend.Reference.Histories.{UpTo}
use nexir_mvcc_core.Engine.KeyGc.SafePoint.{All-reverse, All-take}
use nexir_mvcc_core.Engine.KeyGc.Collapses.{collapse-nil, mem, mem-append, mem-reverse}
use nexir_mvcc_core.Engine.IncrementalGc.Steps.{older_times}

abbrev pub times : History → List Timestamp
times h = map (λ e. e.0) h

remove-absent : (t : Timestamp) (h : History) → All (λ e. t ≺ e.0) h → remove t h ≡ h
unfolding remove
remove-absent t [] a = refl
remove-absent t (x ∷ h) (p, a) = ground (arith, remove-absent t h a)

length-remove :
    (t : Timestamp) (h : History)
    → IsSorted h
    → mem t (times h) ≡ true
    → length (remove t h) + 1 ≡ length h
unfolding remove
length-remove t [] s m = cc
length-remove t (x ∷ h) (a, s) m =
    ground (
      arith,
      length-remove t h s,
      ap (length {A = Timestamp × Option Value}) (remove-absent x.0 h a),
    )

mem-remove :
    (u t : Timestamp) (h : History) → mem u (times (remove t h)) ≡ (not (u == t) && mem u (times h))
unfolding remove
mem-remove u t [] = ground arith
mem-remove u t (x ∷ h) = ground (arith, mem-remove u t h)

abbrev pub IsDistinct : List Timestamp → Type 0
IsDistinct [] = Unit
IsDistinct (t ∷ ts) = (mem t ts ≡ false) × IsDistinct ts

-- each timestamp of `ts` but `t` is still there once `t` is removed
All-mem-remove :
    (t : Timestamp) (ts : List Timestamp) (h : History)
    → mem t ts ≡ false
    → All (λ u. mem u (times h) ≡ true) ts
    → All (λ u. mem u (times (remove t h)) ≡ true) ts
All-mem-remove t [] h n a = tt
All-mem-remove t (u ∷ ts) h n (p, a) =
    ground (arith, mem-remove u t h, All-mem-remove t ts h, n, p, a)

pub length-removals :
    (ts : List Timestamp) (h : History)
    → IsSorted h
    → IsDistinct ts
    → All (λ u. mem u (times h) ≡ true) ts
    → length (for_each remove ts h) + length ts ≡ length h
length-removals [] h s d a = omega arith
length-removals (t ∷ ts) h s (n, d) (p, a) = omega (
  arith,
  length-removals ts (remove t h) (remove-IsSorted t h s) d (All-mem-remove t ts h n a),
  length-remove t h s p,
)

IsDistinct-append :
    (ts : List Timestamp) (t : Timestamp)
    → IsDistinct ts
    → mem t ts ≡ false
    → IsDistinct (ts ++ t ∷ [])
IsDistinct-append [] t d n = (refl, tt)
IsDistinct-append (u ∷ ts) t (p, d) n = ground (arith, mem-append u ts t, IsDistinct-append ts t d)

IsDistinct-reverse : (ts : List Timestamp) → IsDistinct ts → IsDistinct (reverse ts)
IsDistinct-reverse [] d = tt
IsDistinct-reverse (t ∷ ts) (n, d) =
    rw reverse-cons
      (IsDistinct-append (reverse ts) t (IsDistinct-reverse ts d) (mem-reverse t ts ∙ n))

mem-take :
    (t : Timestamp) (n : ℕ) (ts : List Timestamp) → mem t ts ≡ false → mem t (take n ts) ≡ false
mem-take t zero ts q = refl
mem-take t (suc n) [] q = refl
mem-take t (suc n) (u ∷ ts) q = ground (arith, mem-take t n ts)

IsDistinct-take : (n : ℕ) (ts : List Timestamp) → IsDistinct ts → IsDistinct (take n ts)
IsDistinct-take zero ts d = tt
IsDistinct-take (suc n) [] d = tt
IsDistinct-take (suc n) (t ∷ ts) (p, d) = (mem-take t n ts p, IsDistinct-take n ts d)

mem-filtered-above :
    (t c : Timestamp) (h : History)
    → All (λ e. t ≺ e.0) h
    → mem t (times (filter_by (λ y. ltb y.0 c) h)) ≡ false
mem-filtered-above t c [] a = refl
mem-filtered-above t c (x ∷ h) (p, a) = ground (arith, mem-filtered-above t c h a)

IsDistinct-filtered :
    (c : Timestamp) (h : History) → IsSorted h → IsDistinct (times (filter_by (λ y. ltb y.0 c) h))
IsDistinct-filtered c [] s = tt
IsDistinct-filtered c (x ∷ h) (a, s) =
    ground (arith, IsDistinct-filtered c h s, mem-filtered-above x.0 c h a)

mem-behind :
    (x : Timestamp × Option Value) (h : History) (u : Timestamp)
    → mem u (times h) ≡ true
    → mem u (times (x ∷ h)) ≡ true
mem-behind x h u m = ground (arith, m)

mem-below : (c : Timestamp) (h : History) → mem c (times (filter_by (λ y. ltb y.0 c) h)) ≡ false
mem-below c [] = refl
mem-below c (x ∷ h) = ground (arith, mem-below c h)

All-mem-filtered :
    (c : Timestamp) (h : History)
    → All (λ u. mem u (times h) ≡ true) (times (filter_by (λ y. ltb y.0 c) h))
All-mem-filtered c [] = tt
All-mem-filtered c (x ∷ h) =
    let rest =
      All-imp (mem-behind x h) (times (filter_by (λ y. ltb y.0 c) h)) (All-mem-filtered c h) in
    elim (Bool-cases (ltb x.0 c)) [ inl q ↦ rw q (ground arith, rest) | inr q ↦ rw q rest ]

-- a page of the versions before `c`, newest first, is removed in full
pub length-page :
    (n : ℕ) (c : Timestamp) (h : History)
    → IsSorted h
    → length (for_each remove (take n (older_times c h)) h) + length (take n (older_times c h))
      ≡ length h
length-page n c h s =
    length-removals (take n (older_times c h)) h s
      (IsDistinct-take n _ (IsDistinct-reverse _ (IsDistinct-filtered c h s)))
      (All-take (λ u. mem u (times h) ≡ true) n _
        (All-reverse (λ u. mem u (times h) ≡ true) _ (All-mem-filtered c h)))

mem-older_times : (c : Timestamp) (h : History) → mem c (older_times c h) ≡ false
mem-older_times c h = mem-reverse c (times (filter_by (λ y. ltb y.0 c) h)) ∙ mem-below c h

mem-next_back :
    (h : History) (x : Timestamp × Option Value) → next_back h ≡ some x → mem x.0 (times h) ≡ true
mem-next_back [] x q = cc
mem-next_back (y ∷ h) x q = elim (Option-cases (next_back h)) [
  | inl n ↦ ground arith
  | inr (z, n) ↦ ground (arith, mem-next_back h z n)
]

-- a newest version and all that is older are the whole history
pub length-collapse :
    (c : Timestamp) (h : History) (x : Timestamp × Option Value)
    → IsSorted h
    → UpTo c h
    → latest h ≡ some x
    → x.0 ≡ c
    → length (older_times c h) + 1 ≡ length h
unfolding latest
length-collapse c h x s u q e = omega (
  arith,
  length-removals (c ∷ older_times c h) h s
      (mem-older_times c h, IsDistinct-reverse _ (IsDistinct-filtered c h s))
      (
        rw (sym e) (mem-next_back h x q),
        All-reverse (λ u. mem u (times h) ≡ true) _ (All-mem-filtered c h),
      ),
  ap (length {A = Timestamp × Option Value}) (collapse-nil c h u),
)
