-- ===== src/Tracker/Remembered.antt =====
-- What the ledger of app/monitoring/tracker.py keeps of a player, and where it lists the player.
use palworld_server_service.Common.{
  ◌≡◌, refl, sym, ap, ◌∙◌, Bool, true, false, ◌&&◌, ◌||◌, not, Option, none, some, List, [], ◌∷◌,
  arith, any_where, Bool-cases, inl, inr,
}
use palworld_server_service.Common.Text.{Text, text_eq, text_eq_refl, text_eq→eq}
use palworld_server_service.Files.Paths.{lookup, exists, exists-some}
use palworld_server_service.Tracker.Ledger.{
  LivePlayer, LedgerEntry, History, PlayerRow, id_of, seen_entry, entry_now, keep_entry,
  after_player, merge_live_players, is_active, offline_players, update_and_get_players, matrix_of,
}

module _ (Number : Type 0) (zero one : Number) where
  abbrev Kept : Type 0
  Kept = LedgerEntry Number zero one

  -- The player is there, first seen when it was and under the same account.
  abbrev pub Remembered :
      LedgerEntry Number zero one → Option (LedgerEntry Number zero one) → Type 0
  Remembered r none = ⊥
  Remembered r (some s) = (s.first_seen ≡ r.first_seen) × (s.user_id ≡ r.user_id)

  Remembered-trans :
      (r s : Kept) (o : Option Kept)
      → (s.first_seen ≡ r.first_seen) × (s.user_id ≡ r.user_id)
      → Remembered s o
      → Remembered r o
  Remembered-trans r s none h k = k
  Remembered-trans r s (some t) h k = (k.0 ∙ h.0, k.1 ∙ h.1)

  keep_entry-lookup :
      (pid : Text) (r : Kept) (d : History Number zero one)
      → lookup pid (keep_entry Number zero one pid r d) ≡ some r
  unfolding keep_entry lookup
  keep_entry-lookup pid r [] = rw (text_eq_refl pid) refl
  keep_entry-lookup pid r ((q, old) ∷ d) = elim (Bool-cases (text_eq q pid)) [
    | inl same ↦ simp same refl
    | inr other ↦ simp other (keep_entry-lookup pid r d)
  ]

  keep_entry-lookup_other :
      (pid q : Text) (r : Kept) (d : History Number zero one)
      → text_eq pid q ≡ false
      → lookup q (keep_entry Number zero one pid r d) ≡ lookup q d
  unfolding keep_entry lookup
  keep_entry-lookup_other pid q r [] h = rw h refl
  keep_entry-lookup_other pid q r ((p, old) ∷ d) h = elim (Bool-cases (text_eq p pid)) [
    | inl same ↦
        let apart : text_eq p q ≡ false = ap (λ t. text_eq t q) (text_eq→eq p pid same) ∙ h in
        simp (same, apart) refl
    | inr other ↦ simp other (ground (arith, keep_entry-lookup_other pid q r d h))
  ]

  seen-Remembered :
      (now : Text) (p : LivePlayer Number zero one) (r : Kept) (o : Option Kept)
      → o ≡ some r
      → ((seen_entry Number zero one now p o).first_seen ≡ r.first_seen)
        × ((seen_entry Number zero one now p o).user_id ≡ r.user_id)
  seen-Remembered now p r none e = absurd (ground arith)
  seen-Remembered now p r (some s) e =
      let same : s ≡ r = ground arith in
      (ap (λ (x : Kept). x.first_seen) same, ap (λ (x : Kept). x.user_id) same)

  merge-Remembered :
      (now : Text) (players : List (LivePlayer Number zero one)) (d : History Number zero one)
      (pid : Text) (r : Kept)
      → lookup pid d ≡ some r
      → Remembered r (lookup pid (merge_live_players Number zero one now players d).0)
  unfolding merge_live_players
  merge-Remembered now [] d pid r e = simp e (refl, refl)
  merge-Remembered now (p ∷ players) d pid r e =
      let who = id_of Number zero one p in
      elim (Bool-cases (text_eq who pid)) [
        | inl same ↦
            let here : who ≡ pid = text_eq→eq who pid same in
            let s = entry_now Number zero one now p d in
            Remembered-trans r s _
              (seen-Remembered now p r (lookup who d) (ap (λ t. lookup t d) here ∙ e))
              (merge-Remembered now players (after_player Number zero one now p d) pid s (
                ap (λ t. lookup t (after_player Number zero one now p d)) (sym here)
                ∙ keep_entry-lookup who s d))
        | inr other ↦
            merge-Remembered now players (after_player Number zero one now p d) pid r
              (keep_entry-lookup_other who pid _ d other ∙ e)
      ]

  abbrev pub is_listed : Text → List (PlayerRow Number zero one) → Bool
  is_listed pid = any_where (λ row. text_eq row.id pid)

  merge-is_listed :
      (now pid : Text) (players : List (LivePlayer Number zero one)) (d : History Number zero one)
      → is_listed pid (merge_live_players Number zero one now players d).1
        ≡ is_active Number zero one pid players
  unfolding merge_live_players
  merge-is_listed now pid [] d = refl
  merge-is_listed now pid (p ∷ players) d =
      ap (λ t. text_eq (id_of Number zero one p) pid || t)
        (merge-is_listed now pid players (after_player Number zero one now p d))

  offline-is_listed :
      (pid : Text) (players : List (LivePlayer Number zero one)) (d : History Number zero one)
      → is_listed pid (offline_players Number zero one players d)
        ≡ (not (is_active Number zero one pid players) && exists pid d)
  unfolding offline_players lookup
  offline-is_listed pid players [] = ground arith
  offline-is_listed pid players ((q, r) ∷ d) = elim (Bool-cases (text_eq q pid)) [
    | inl same ↦
        let here : is_active Number zero one q players ≡ is_active Number zero one pid players =
          ap (λ t. is_active Number zero one t players) (text_eq→eq q pid same) in
        elim (Bool-cases (is_active Number zero one pid players)) [
          | inl active ↦ simp (here, active) (offline-is_listed pid players d ∙ simp active refl)
          | inr absent ↦ simp (here, absent, same) refl
        ]
    | inr other ↦ elim (Bool-cases (is_active Number zero one q players)) [
      | inl active ↦ simp (active, other) (offline-is_listed pid players d)
      | inr absent ↦ simp (absent, other) (offline-is_listed pid players d)
    ]
  ]

  Remembered-exists :
      (r : Kept) (pid : Text) (d : History Number zero one)
      → Remembered r (lookup pid d)
      → exists pid d ≡ true
  Remembered-exists r pid d h = from (lookup pid d) refl h
    where
      from : (o : Option Kept) → lookup pid d ≡ o → Remembered r o → exists pid d ≡ true
      from none e k = absurd k
      from (some s) e k = exists-some pid s d e

  -- A player of the ledger is remembered by every update, first seen when it was and under the same
  -- account; the update lists it as online where it is among the live players, else as offline.
  pub update_and_get_players-Remembered :
      (now : Text) (live_players : List (LivePlayer Number zero one)) (d : History Number zero one)
      (pid : Text) (r : LedgerEntry Number zero one)
      → lookup pid d ≡ some r
      → Remembered r (lookup pid (update_and_get_players Number zero one now live_players d).1)
        × ((is_listed pid
                (update_and_get_players Number zero one now live_players d).0.active_players
              ≡ is_active Number zero one pid live_players)
            × (is_listed pid
                  (update_and_get_players Number zero one now live_players d).0.offline_players
                ≡ not (is_active Number zero one pid live_players)))
  unfolding update_and_get_players matrix_of
  update_and_get_players-Remembered now live_players d pid r e =
      let kept = merge-Remembered now live_players d pid r e in
      let there =
        Remembered-exists r pid (merge_live_players Number zero one now live_players d).0 kept in
      (
        kept,
        (
          merge-is_listed now pid live_players d,
          offline-is_listed pid live_players
                (merge_live_players Number zero one now live_players d).0
              ∙ ground (arith, there),
        ),
      )
