-- ===== src/Storage/Memory/Liveness.antt =====
-- That a connection can always begin a transaction again (storage/memory_*.go).
use commerce.Prelude.{ℕ, ◌≡◌, refl, ◌⊎◌, inl, inr, Bool-cases, none, some, Option-cases, arith}
use commerce.Go.{ok}
use commerce.Storage.Memory.{Memory, begin_tx, begin, commit, rollback}
use commerce.Storage.Memory.Ends.{collides, rollback-eq, commit-collides, commit-publishes}
use commerce.Storage.Memory.Histories.{Reach, Reach-Inv}

-- A begin on the connection succeeds.
abbrev pub Begins : Memory → ℕ → Type 0
Begins m c = (t : ℕ) × ((begin m c).0 ≡ ok t)

idle-Begins : (m : Memory) (c : ℕ) → m.active c ≡ none → Begins m c
unfolding begin begin_tx
idle-Begins m c idle = (m.next, rw (idle) refl)

-- In every state that the driver reaches, a connection can begin a transaction, or it has one of which
-- both the commit, accepted or not, and the rollback leave it able to begin the next one.
pub begin_possible :
    {m : Memory}
    → Reach m
    → (c : ℕ)
    → Begins m c
      ⊎ ((t : ℕ) × (m.active c ≡ some t) × Begins (commit m t).1 c × Begins (rollback m t).1 c)
begin_possible {m} r c = elim (Option-cases (m.active c)) [
  | inl idle ↦ inl (idle-Begins m c idle)
  | inr (t, a) ↦
      let v = Reach-Inv r in
      let (tx, e, _, _, _) = v.opened c t a in
      let rolled : (rollback m t).1.active c ≡ none =
        rw (rollback-eq m c t tx v a e) (ground arith) in
      let committed : (commit m t).1.active c ≡ none = elim (Bool-cases (collides m tx)) [
        | inl h ↦ rw (commit-collides m c t tx v a e h) (ground arith)
        | inr h ↦ rw (commit-publishes m c t tx v a e h) (ground arith)
      ] in
      inr (t, a, idle-Begins (commit m t).1 c committed, idle-Begins (rollback m t).1 c rolled)
]
