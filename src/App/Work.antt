-- ===== src/App/Work.antt =====
-- app/internal/work/work.go: `Do`, which hashes for about the time it is given.
pub mod Stopping
use cost_risk_aware_gitops_p.Prelude.{
  ◌≡◌, ℕ, zero, suc, ◌+◌, ◌%◌, ◌^◌, Bool, true, false, Option, none, some, List, [], ◌∷◌,
}
use cost_risk_aware_gitops_p.Prelude.Int.{ℤ, pos, ◌+ℤ◌, leb_ℤ, ltb_ℤ}
use cost_risk_aware_gitops_p.App.Queue.{Time}

-- What a round of the loop reads after its batch: the clock, and whether the context is done.
pub record Reading : Type 0 where
  pub now : Time
  pub canceled : Bool

-- `rounds++` on a `uint64`, as often as the batch's loop goes round. The digests are not kept.
unfoldable pub batch : (left rounds : ℕ) → ℕ
batch zero rounds = rounds
batch (suc left) rounds = batch left ((rounds + 1) % 2 ^ 64)

-- The loop over what its rounds read; `none` where it has not returned by then.
unfoldable pub hash_until : (deadline : Time) → List Reading → (rounds : ℕ) → Option ℕ
unfolding batch
hash_until deadline [] rounds = none
hash_until deadline (r ∷ rs) rounds = elim (ltb_ℤ deadline r.now) [
  | true ↦ some (batch 2048 rounds)
  | false ↦ elim r.canceled [
    | true ↦ some (batch 2048 rounds)
    | false ↦ hash_until deadline rs (batch 2048 rounds)
  ]
]

-- `Do`, from the time it reads first.
unfoldable pub do_work : (started : Time) (d : ℤ) → List Reading → Option ℕ
unfolding hash_until
do_work started d rs = elim (leb_ℤ d (pos 0)) [
  | true ↦ some 0
  | false ↦ hash_until (started +ℤ d) rs 0
]
