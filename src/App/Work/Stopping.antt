-- ===== src/App/Work/Stopping.antt =====
-- work.go: when `Do` returns, and what it returns.
use cost_risk_aware_gitops_p.Prelude.{
  ◌≡◌, ap, ◌∙◌, ℕ, zero, suc, ◌+◌, ◌*◌, ◌%◌, ◌^◌, ◌<◌, ◌⊎◌, inl, inr, true, false, some, List, [],
  ◌∷◌, ◌++◌, length, All, arith,
}
use cost_risk_aware_gitops_p.Prelude.Int.{ℤ, pos, ◌+ℤ◌, leb_ℤ, ltb_ℤ}
use cost_risk_aware_gitops_p.App.Queue.{Time}
use cost_risk_aware_gitops_p.App.Work.{Reading, batch, hash_until, do_work}

-- The round after which the loop goes on, and the one after which it does not.
abbrev pub GoesOn : Time → Reading → Type 0
GoesOn deadline r = (ltb_ℤ deadline r.now ≡ false) × (r.canceled ≡ false)

abbrev pub Stops : Time → Reading → Type 0
Stops deadline r = (ltb_ℤ deadline r.now ≡ true) ⊎ (r.canceled ≡ true)

batch_lem : (n rounds : ℕ) → rounds < 2 ^ 64 → batch n rounds ≡ (rounds + n) % 2 ^ 64
unfolding batch
batch_lem zero rounds h = omega arith
batch_lem (suc n) rounds h = batch_lem n ((rounds + 1) % 2 ^ 64) (omega arith) ∙ omega arith

hash_until-last :
    (deadline : Time) (r : Reading) (rs : List Reading) (rounds : ℕ)
    → Stops deadline r
    → hash_until deadline (r ∷ rs) rounds ≡ some (batch 2048 rounds)
unfolding hash_until
hash_until-last deadline r rs rounds (inl late) = ground arith
hash_until-last deadline r rs rounds (inr c) = ground arith

hash_until-next :
    (deadline : Time) (r : Reading) (rs : List Reading) (rounds : ℕ)
    → GoesOn deadline r
    → hash_until deadline (r ∷ rs) rounds ≡ hash_until deadline rs (batch 2048 rounds)
unfolding hash_until
hash_until-next deadline r rs rounds (early, c) = ground arith

hash_until-Stops :
    (deadline : Time) (before after : List Reading) (r : Reading) (rounds : ℕ)
    → rounds < 2 ^ 64
    → All (GoesOn deadline) before
    → Stops deadline r
    → hash_until deadline (before ++ r ∷ after) rounds
      ≡ some ((rounds + 2048 * (length before + 1)) % 2 ^ 64)
hash_until-Stops deadline [] after r rounds h g s =
    hash_until-last deadline r after rounds s ∙ ap some (batch_lem 2048 rounds h)
hash_until-Stops deadline (b ∷ before) after r rounds h (n, g) s =
    let hashed = batch_lem 2048 rounds h in
    hash_until-next deadline b (before ++ r ∷ after) rounds n
    ∙ hash_until-Stops deadline before after r (batch 2048 rounds) (omega (arith, hashed)) g s
    ∙ ap some (omega (arith, hashed))

-- Where the work is to take any time, and a first round after its batch reads a clock past the
-- deadline or a context that is done, `Do` returns after that round, with 2048 for each of its rounds,
-- in 64 bits: a clock that passes the deadline ends it, and so does a canceled context before that.
pub do_work-Stops :
    (started : Time) (d : ℤ) (before after : List Reading) (r : Reading)
    → leb_ℤ d (pos 0) ≡ false
    → All (GoesOn (started +ℤ d)) before
    → Stops (started +ℤ d) r
    → do_work started d (before ++ r ∷ after) ≡ some ((2048 * (length before + 1)) % 2 ^ 64)
unfolding do_work
do_work-Stops started d before after r positive g s =
    rw (positive, do_work)
      (hash_until-Stops (started +ℤ d) before after r 0 (omega arith) g s ∙ ap some (omega arith))
