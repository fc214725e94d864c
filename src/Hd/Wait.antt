-- ===== src/Hd/Wait.antt =====
-- src/kernel/hd.c: `waitfor` ends, and what its answer says.
use Prim.Native.Nat.{bit_and}
use aneasyos.Base.{
  ℕ, zero, suc, ◌+◌, ◌<◌, ◌≤◌, ◌≡◌, refl, subst, dec_lt, inl, inr, Bool, true, false, arith, ◌==◌,
  Bool-cases,
}
use aneasyos.Hd.{Polls, returns, in_time, waitfor}

module _ (polls : Polls) (mask val timeout : ℕ) where
  abbrev pub ready : ℕ → Bool
  ready j = bit_and (polls.status j) mask == val

  -- From the round `k` on, the first round that ends the loop is `j`: `true` is the wanted status,
  -- found in time, `false` is a clock that has run out.
  pub record EndsAt (k : ℕ) (answer : Bool) (j : ℕ) : Type 0 where
    pub from : k ≤ j
    pub before : (i : ℕ) → k ≤ i → i < j → (in_time polls timeout i ≡ true) × (ready i ≡ false)
    pub at : in_time polls timeout j ≡ answer
    pub found : answer ≡ true → ready j ≡ true

  earlier :
      (k : ℕ) (answer : Bool) (j : ℕ)
      → in_time polls timeout k ≡ true
      → ready k ≡ false
      → EndsAt (suc k) answer j
      → EndsAt k answer j
  earlier k answer j t r e = record {
    from = omega (arith, e.from);
    before = λ i lo hi. elim (dec_lt k i) [
      | yes h ↦ e.before i (omega (arith, h)) hi
      | no h ↦
          let same : k ≡ i = omega (arith, h, lo) in
          (
            subst (λ (z : ℕ). in_time polls timeout z ≡ true) same t,
            subst (λ (z : ℕ). ready z ≡ false) same r,
          )
    ];
    at = e.at;
    found = e.found;
  }

  stops :
      (k : ℕ) (answer : Bool)
      → in_time polls timeout k ≡ answer
      → (answer ≡ true → ready k ≡ true)
      → EndsAt k answer k
  stops k answer t r = record {
    from = omega arith;
    before = λ i lo hi. absurd (omega (arith, lo, hi));
    at = t;
    found = r;
  }

  ends_from :
      (d k : ℕ)
      → in_time polls timeout (k + d) ≡ false
      → (answer : Bool) × (j : ℕ) × (waitfor (suc d) polls k mask val timeout ≡ returns answer)
        × EndsAt k answer j
  unfolding waitfor
  ends_from zero k late =
      let out : in_time polls timeout k ≡ false =
        subst (λ (z : ℕ). in_time polls timeout z ≡ false) (omega arith) late in
      (false, k, rw out refl, stops k false out (λ e. absurd (ground (arith, e))))
  ends_from (suc d) k late = elim (Bool-cases (in_time polls timeout k)) [
    | inr out ↦ (false, k, rw out refl, stops k false out (λ e. absurd (ground (arith, e))))
    | inl t ↦ elim (Bool-cases (ready k)) [
      | inl r ↦ (true, k, rw (t, r) refl, stops k true t (λ e. r))
      | inr r ↦
          let late' : in_time polls timeout (suc k + d) ≡ false =
            subst (λ (z : ℕ). in_time polls timeout z ≡ false) (omega arith) late in
          let (answer, j, run, e) = ends_from d (suc k) late' in
          (answer, j, rw (t, r) run, earlier k answer j t r e)
    ]
  ]

  -- Where the clock shows at some call that the time is over, `waitfor` ends by then, with any status
  -- of the drive. It answers at the first round that finds the time over or the wanted status: 1
  -- when that round is in time, so that its status is the wanted one, 0 when the time is over.
  pub waitfor_answers :
      (n : ℕ)
      → in_time polls timeout n ≡ false
      → (answer : Bool) × (j : ℕ) × (waitfor (suc n) polls 0 mask val timeout ≡ returns answer)
        × EndsAt 0 answer j
  waitfor_answers n late =
      ends_from n 0 (subst (λ (z : ℕ). in_time polls timeout z ≡ false) (omega arith) late)
