-- ===== src/Replicator/Backoff.antt =====
-- The backoff of the live loop of sdk/replicate.go.
use native.Mathlib.Nat.{pow-suc}
use nell_db.Base.{
  ℕ, zero, suc, ◌+◌, ◌*◌, ◌%◌, ◌^◌, ◌<◌, ◌≤◌, ◌≡◌, ◌⊎◌, refl, sym, ap, ◌∙◌, List, [], ◌∷◌, length,
  arith, ltb, Bool-cases, inl, inr, ◌==◌, min,
}
use nell_db.Base.Int.{ℤ, pos, ltb_ℤ, to_word, of_word}
use nell_db.Base.Result.{ok, err}
use nell_db.Doc.{Library}
use nell_db.DocDb.Engine.{Store}
use nell_db.Replicator.{
  Send, Counted, LiveConfig, Live, next_backoff, live_pull, live_push, live_turn, counted_pull,
  counted_push,
}

next_backoff-pos : (c m : ℕ) → c < 2 ^ 62 → next_backoff (pos c) (pos m) ≡ pos (min m (c * 2))
unfolding next_backoff to_word of_word ltb_ℤ
next_backoff-pos c m h = ground arith

two_pow_pos : (n : ℕ) → 0 < 2 ^ n
two_pow_pos zero = omega arith
two_pow_pos (suc n) = omega (arith, two_pow_pos n, pow-suc 2 n)

grow : (m c p : ℕ) → 0 < p → min m (min m (c * 2) * p) ≡ min m (c * (p * 2))
grow m c zero h = absurd (omega arith)
grow m c (suc q) h = elim (Bool-cases (ltb m (c * 2))) [
  | inl t ↦ let e : min m (c * 2) ≡ m = ground arith in rw e (ground arith)
  | inr t ↦ let e : min m (c * 2) ≡ c * 2 = ground arith in rw e (ap (min m) (omega arith))
]

module _ {S : Type 0} (ops : Store S) (lib : Library) (now : ℕ → ℤ) where
  -- The turns of the live loop, with what the network does in each.
  unfoldable pub live_run : LiveConfig ops lib now → List Send → Live ops lib now → Live ops lib now
  live_run cfg [] st = st
  live_run cfg (send ∷ sends) st = live_run cfg sends (live_turn ops lib now cfg send st)

  -- A turn completes a pull and resets the backoff, or grows it.
  abbrev pub Turned : LiveConfig ops lib now → Live ops lib now → Live ops lib now → Type 0
  Turned cfg st st' =
      ((st'.pull_count ≡ st.pull_count + 1) × (st'.backoff ≡ cfg.interval))
      ⊎ ((st'.pull_count ≡ st.pull_count) × (st'.backoff ≡ next_backoff st.backoff cfg.backoff_max))

  live_pull-Turned :
      (cfg : LiveConfig ops lib now) (st : Live ops lib now) (x : Counted ops lib now)
      → Turned cfg st (live_pull ops lib now cfg st x)
  unfolding live_pull
  live_pull-Turned cfg st (r, n, ok u) = inl (refl, refl)
  live_pull-Turned cfg st (r, n, err e) = inr (refl, refl)

  live_push-Turned :
      (cfg : LiveConfig ops lib now) (send : Send) (st : Live ops lib now) (x : Counted ops lib now)
      → Turned cfg st (live_push ops lib now cfg send st x)
  unfolding live_push
  live_push-Turned cfg send st (r, n, ok u) = live_pull-Turned cfg (record st { replicator = r }) _
  live_push-Turned cfg send st (r, n, err e) = inr (refl, refl)

  live_turn-Turned :
      (cfg : LiveConfig ops lib now) (send : Send) (st : Live ops lib now)
      → Turned cfg st (live_turn ops lib now cfg send st)
  unfolding live_turn
  live_turn-Turned cfg send st = elim (Bool-cases (st.pull_count % cfg.push_every == 0)) [
    | inl t ↦ rw t (live_push-Turned cfg send st (counted_push ops lib now send st.replicator))
    | inr t ↦ rw t (live_pull-Turned cfg st (counted_pull ops lib now send st.replicator))
  ]

  pull_count-live_run :
      (cfg : LiveConfig ops lib now) (sends : List Send) (st : Live ops lib now)
      → st.pull_count ≤ (live_run cfg sends st).pull_count
  unfolding live_run
  pull_count-live_run cfg [] st = omega arith
  pull_count-live_run cfg (send ∷ sends) st =
      let st' = live_turn ops lib now cfg send st in
      elim (live_turn-Turned cfg send st) [
        | inl (e, _) ↦ omega (arith, e, pull_count-live_run cfg sends st')
        | inr (e, _) ↦ omega (arith, e, pull_count-live_run cfg sends st')
      ]

  -- In a run of turns of the live loop none of which completes a pull, from a delay `c` that is at
  -- most the greatest one, the delay doubles with each turn up to the greatest one. That is below
  -- `2 ^ 62` ns, so the doubling does not wrap.
  pub backoff-live_run :
      (cfg : LiveConfig ops lib now) (m c : ℕ) (sends : List Send) (st : Live ops lib now)
      → cfg.backoff_max ≡ pos m
      → m < 2 ^ 62
      → c ≤ m
      → st.backoff ≡ pos c
      → (live_run cfg sends st).pull_count ≡ st.pull_count
      → (live_run cfg sends st).backoff ≡ pos (min m (c * 2 ^ length sends))
  unfolding live_run
  backoff-live_run cfg m c [] st top small le here same = here ∙ ap pos (omega arith)
  backoff-live_run cfg m c (send ∷ sends) st top small le here same =
      let st' = live_turn ops lib now cfg send st in
      let later = pull_count-live_run cfg sends st' in
      elim (live_turn-Turned cfg send st) [
        | inl (e, _) ↦ absurd (omega (arith, e, later, same))
        | inr (e, grown) ↦
            let now_at : st'.backoff ≡ pos (min m (c * 2)) =
              grown ∙ rw (here, top) (next_backoff-pos c m (omega arith)) in
            backoff-live_run cfg m (min m (c * 2)) sends st' top small (omega arith) now_at
              (omega (arith, e, same))
            ∙ ap pos (
                grow m c (2 ^ length sends) (two_pow_pos (length sends))
                ∙ ap (λ k. min m (c * k)) (sym (pow-suc 2 (length sends))))
      ]
