-- ===== src/Engine/IncrementalGc/Wrap.antt =====
-- Where the additions of `gc_incremental` in src/engine.rs wrap around: budgets of the largest `usize`,
-- over the reference backend, in a build that does not check overflow.
use nexir_mvcc_core.Prelude.{
  ℕ, ◌-◌, ◌^◌, true, false, ◌&&◌, not, Option, none, some, [], ◌∷◌, ◌≡◌, refl, ap, ◌∙◌, arith, ◌==◌,
  is_none,
}
use nexir_mvcc_core.Ord.{bytes_eq_iff, bytes_ord, nat_ord}
use nexir_mvcc_core.BTreeMap.{remove}
use nexir_mvcc_core.Types.{Timestamp, Key, Value}
use nexir_mvcc_core.Exec.{ok, pure, query, mutate, reject_if, ◌>>=◌}
use nexir_mvcc_core.Backend.Reference.{
  View, reference, visible, latest, map_version, keys_at, newest_before, drop_version,
}
use nexir_mvcc_core.Backend.Reference.Effects.{history-release_key}
use nexir_mvcc_core.Engine.KeyGc.Collapses.{history-drop_versions}
use nexir_mvcc_core.Engine.IncrementalGc.Trims.{is_newest, final_tombstone_lem}
use nexir_mvcc_core.Engine.Read.{read, value_of}
use nexir_mvcc_core.Engine.IncrementalGc.{
  GcOptions, IncrementalGcCursor, start_scan, add_scanned, add_removed, count_key, next_key_of,
  add_usize, scan_keys, scan_key, scan_keeper, scan_final, gc_incremental,
}

abbrev pub max_usize : ℕ
max_usize = 2 ^ 64 - 1

add_usize_wraps : add_usize max_usize 1 ≡ 0
unfolding add_usize
add_usize_wraps = refl

keys_at-zero : (c : Option Key) (w : View) → keys_at c 0 w.keys ≡ []
keys_at-zero none w = refl
keys_at-zero (some c) w = refl

-- With a budget of `usize::MAX` keys, where `max_keys + 1` wraps to zero, and a budget of versions that is
-- not zero, `gc_incremental` reports that it is done without having scanned a key, and changes
-- nothing, whatever there is to collect.
pub gc_incremental_idle :
    (sp : Timestamp) (options : GcOptions) (cursor : Option IncrementalGcCursor) (w : View)
    → options.budget.max_keys ≡ max_usize
    → (options.budget.max_versions == 0) ≡ false
    → gc_incremental reference sp cursor options w ≡ (
      ok (record {
        cursor = record { next_key = none };
        done = true;
        keys_scanned = 0;
        versions_scanned = 0;
        versions_removed = 0;
        intents_preserved = 0;
      }),
      w,
    )
unfolding gc_incremental scan_keys reject_if query pure ◌>>=◌
gc_incremental_idle sp options cursor w h q =
    rw (h, q, add_usize_wraps, keys_at-zero (next_key_of cursor) w)

-- the tombstone is removed alone
scan_key-wrapped :
    (sp : Timestamp) (options : GcOptions) (key : Key) (w : View) (e : Timestamp × Option Value)
    → options.budget.max_versions ≡ max_usize
    → options.collapse_final_tombstones ≡ true
    → visible sp (w.history_of key) ≡ some e
    → e.1 ≡ none
    → w.intent_of key ≡ none
    → latest (w.history_of key) ≡ some e
    → scan_key reference sp options key start_scan w ≡ (
      ok (add_removed 1 (add_scanned 0 (add_scanned 1 (count_key none start_scan)))),
      (reference.collapse_tombstone key e.0 [] w).1,
    )
unfolding scan_key scan_keeper scan_final query mutate pure newest_before ◌>>=◌
scan_key-wrapped sp options key w e h c v n i l =
    let final : (true && is_none e.1 && not false && is_newest e.0 (w.history_of key)) ≡ true =
      ground (arith, n, l) in
    rw (v, i, h, c, final_tombstone_lem true false key e w, final, add_usize_wraps)

history-exposed :
    (key : Key) (ts : Timestamp) (w : View)
    → (reference.collapse_tombstone key ts [] w).1.history_of key ≡ remove ts (w.history_of key)
history-exposed key ts w =
    history-release_key key key (drop_version key ts w)
    ∙ history-drop_versions key key (ts ∷ []) w
    ∙ rw ((bytes_eq_iff key key).1 refl)

-- With a budget of `usize::MAX` versions, where `limit + 1` wraps to zero, the first round of a call, at
-- a key without an intent whose latest version is a tombstone that the safe point sees and that is to
-- be collapsed, removes that tombstone from the key's history and no other version. A read at the
-- safe point returned nothing before, and then returns what the version before the tombstone has.
pub scan_key_exposes :
    (sp : Timestamp) (options : GcOptions) (key : Key) (w : View) (e : Timestamp × Option Value)
    → options.budget.max_versions ≡ max_usize
    → options.collapse_final_tombstones ≡ true
    → visible sp (w.history_of key) ≡ some e
    → e.1 ≡ none
    → w.intent_of key ≡ none
    → latest (w.history_of key) ≡ some e
    → ((scan_key reference sp options key start_scan w).1.history_of key
        ≡ remove e.0 (w.history_of key))
      × (read reference key sp w ≡ ok none)
      × (read reference key sp (scan_key reference sp options key start_scan w).1
          ≡ ok (value_of (map_version key (visible sp (remove e.0 (w.history_of key))))))
unfolding read
scan_key_exposes sp options key w e h c v n i l = (
  ap (λ p. p.1.history_of key) (scan_key-wrapped sp options key w e h c v n i l)
      ∙ history-exposed key e.0 w,
  ground (arith, v, n),
  ap (λ (t : View). ok (value_of (map_version key (visible sp (t.history_of key)))))
        (ap (λ p. p.1) (scan_key-wrapped sp options key w e h c v n i l))
      ∙ ap (λ h. ok (value_of (map_version key (visible sp h)))) (history-exposed key e.0 w),
)
