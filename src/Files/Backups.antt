-- ===== src/Files/Backups.antt =====
-- What the backups of `atomic_write_file` (app/core/atomic_io.py) leave alone.
use palworld_server_service.Common.{
  ℤ, pos, negsuc, ℕ, zero, suc, ◌==◌, ◌≡◌, refl, ap, ◌∙◌, true, false, ◌||◌, not, Option, none,
  some, List, [], ◌∷◌, ◌++◌, arith, if◌then◌else◌, Bool-cases, inl, inr, All, take, length,
  keep_where,
}
use palworld_server_service.Common.Text.{Text, codes, text_eq, text_eq→eq, starts_with}
use palworld_server_service.Common.Outcome.{Outcome, pure, ◌>>=◌, ◌>>◌}
use palworld_server_service.Common.Keeps.{Keeps-pure, continue-keeps}
use palworld_server_service.Files.Paths.{lookup, remove, put, lookup-remove_other, lookup-put_other}
use palworld_server_service.Files.Atomic.{
  Entry, Disk, Machine, Host, is_backup, comes_before, insert, sort, named, candidate_backups,
  unlink_all, prune_backups, backup_name, copy_until, copy2, snapshot_of, create_backup_snapshot,
}

-- P holds of the directory as it is and as it was before each change.
abbrev pub Always {ℓ} : (Disk → Type ℓ) → Machine → Type ℓ
Always P m = P m.disk × All P m.seen

pub All-Unit : (ds : List Disk) → All (λ d. Unit {0}) ds
All-Unit [] = tt
All-Unit (d ∷ ds) = (tt, All-Unit ds)

starts_with-append : (q p t : Text) → starts_with p t ≡ true → starts_with (q ++ p) (q ++ t) ≡ true
unfolding starts_with
starts_with-append [] p t h = h
starts_with-append (c ∷ q) p t h = ground (arith, starts_with-append q p t h)

starts_with-longer : (t : Text) (c : ℕ) (s : Text) → starts_with (t ++ (c ∷ s)) t ≡ false
unfolding starts_with
starts_with-longer [] c s = refl
starts_with-longer (d ∷ t) c s = ground (arith, starts_with-longer t c s)

pub target-is_backup : (target : Text) → is_backup target target ≡ false
unfolding is_backup
target-is_backup target = starts_with-longer target _ _

backup_name-is_backup : (h : Host) (target : Text) → is_backup target (backup_name h target) ≡ true
unfolding is_backup starts_with
backup_name-is_backup h target =
    starts_with-append target (codes ".bak.") (codes ".bak." ++ h.timestamp_str) refl

differs :
    (target p q : Text)
    → is_backup target p ≡ true
    → is_backup target q ≡ false
    → text_eq p q ≡ false
differs target p q hp hq = elim (Bool-cases (text_eq p q)) [
  | inl same ↦ absurd (ground (arith, ap (is_backup target) (text_eq→eq p q same)))
  | inr other ↦ other
]

abbrev Backups : Text → Disk → Type 0
Backups target = All (λ (x : Text × Entry). is_backup target x.0 ≡ true)

insert-Backups :
    (h : Host) (target : Text) (x : Text × Entry) (xs : Disk)
    → is_backup target x.0 ≡ true
    → Backups target xs
    → Backups target (insert h x xs)
unfolding insert
insert-Backups h target x [] hx hs = (hx, tt)
insert-Backups h target x (y ∷ ys) hx hs = elim (Bool-cases (comes_before h x y)) [
  | inl e ↦ simp e (hx, hs)
  | inr e ↦ simp e (hs.0, insert-Backups h target x ys hx hs.1)
]

sort-Backups :
    (h : Host) (target : Text) (xs : Disk) → Backups target xs → Backups target (sort h xs)
unfolding sort
sort-Backups h target [] hs = tt
sort-Backups h target (x ∷ xs) hs =
    insert-Backups h target x (sort h xs) hs.0 (sort-Backups h target xs hs.1)

keep_where-Backups :
    (target : Text) (xs : Disk) → Backups target (keep_where (named (is_backup target)) xs)
keep_where-Backups target [] = tt
keep_where-Backups target ((p, e) ∷ xs) = elim (Bool-cases (is_backup target p)) [
  | inl hit ↦ simp hit (refl, keep_where-Backups target xs)
  | inr miss ↦ simp miss (keep_where-Backups target xs)
]

take-Backups : (n : ℕ) (target : Text) (xs : Disk) → Backups target xs → Backups target (take n xs)
take-Backups zero target xs hs = tt
take-Backups (suc n) target [] hs = tt
take-Backups (suc n) target (x ∷ xs) hs = (hs.0, take-Backups n target xs hs.1)

-- R is what the history is to have where the name stands as it stood.
module _ (h : Host) (target name : Text) (v : Option Entry) (R : Disk → Type 0)
    (history : (d : Disk) → lookup name d ≡ v → R d) where
  abbrev Kept : Machine → Type 0
  Kept m = (lookup name m.disk ≡ v) × All R m.seen

  unlink_all-Kept :
      (xs : Disk) (m : Machine)
      → is_backup target name ≡ false
      → Backups target xs
      → Kept m
      → Kept (unlink_all h xs m).1
  unfolding unlink_all
  unlink_all-Kept [] m hn hs k = k
  unlink_all-Kept ((p, e) ∷ xs) m hn hs k = elim (Bool-cases (h.unlink_works p)) [
    | inl works ↦ simp works (
        unlink_all-Kept xs (record { disk = remove p m.disk; seen = m.disk ∷ m.seen }) hn hs.1
          (
            lookup-remove_other p name m.disk (differs target p name hs.0 hn) ∙ k.0,
            (history m.disk k.0, k.1),
          ))
    | inr fails ↦ simp fails (unlink_all-Kept xs m hn hs.1 k)
  ]

  prune_backups-Kept :
      (max_backups : ℤ) (m : Machine)
      → is_backup target name ≡ false
      → Kept m
      → Kept (prune_backups h target max_backups m).1
  unfolding prune_backups candidate_backups
  prune_backups-Kept (negsuc n) m hn k = k
  prune_backups-Kept (pos n) m hn k = elim (Bool-cases h.glob_works) [
    | inl works ↦ simp works (
        unlink_all-Kept _ m hn
          (take-Backups _ target _ (sort-Backups h target _ (keep_where-Backups target m.disk))) k)
    | inr fails ↦ simp fails k
  ]

  copied-Kept :
      (e : Entry) (m : Machine)
      → is_backup target name ≡ false
      → Kept m
      → Kept (record { disk = put (backup_name h target) e m.disk; seen = m.disk ∷ m.seen })
  copied-Kept e m hn k = (
    lookup-put_other (backup_name h target) name e m.disk
          (differs target (backup_name h target) name (backup_name-is_backup h target) hn)
        ∙ k.0,
    (history m.disk k.0, k.1),
  )

  snapshot_until :
      (stops : Option ℕ) (e : Entry) (max_backups : ℤ) (m : Machine)
      → is_backup target name ≡ false
      → Kept m
      → Kept
          ((copy_until h stops e (backup_name h target) >>= λ copied.
              if copied
              then prune_backups h target max_backups >> pure (some (backup_name h target))
              else pure none)
            m).1
  snapshot_until none e max_backups m hn k =
      let copied : Machine = record {
        disk = put (backup_name h target) e m.disk;
        seen = m.disk ∷ m.seen;
      } in
      let pruned : Outcome Unit × Machine = prune_backups h target max_backups copied in
      continue-keeps {P = Kept} pruned.0 (λ u. pure (some (backup_name h target))) pruned.1
        (λ u. Keeps-pure _) (prune_backups-Kept max_backups copied hn (copied-Kept e m hn k))
  snapshot_until (some n) e max_backups m hn k = copied-Kept _ m hn k

  snapshot_of-Kept :
      (o : Option Entry) (max_backups : ℤ) (m : Machine)
      → is_backup target name ≡ false
      → Kept m
      → Kept (snapshot_of h target max_backups o m).1
  unfolding snapshot_of copy2
  snapshot_of-Kept none max_backups m hn k = k
  snapshot_of-Kept (some e) max_backups m hn k =
      elim (Bool-cases (not (h.stat_works target) || length e.content == 0)) [
        | inl skipped ↦ simp skipped k
        | inr taken ↦ simp taken (snapshot_until h.copy_stops e max_backups m hn k)
      ]

  -- A backup changes only the names of backups, whatever fails in it.
  pub create_backup_snapshot-Kept :
      (max_backups : ℤ) (m : Machine)
      → is_backup target name ≡ false
      → Kept m
      → Kept (create_backup_snapshot h target max_backups m).1
  create_backup_snapshot-Kept max_backups m = snapshot_of-Kept (lookup target m.disk) max_backups m
