-- ===== src/RateLimiter.antt =====
-- The token buckets of server/ratelimit.go. The floating point numbers and what the code does with
-- them are parameters. A time is an argument, and the cleaning of idle buckets is given the time that it
-- removes older ones than. The mutex makes each call one step.
use nell_db.Base.{
  ◌≡◌, Bool, true, false, Option, none, some, [], ◌∷◌, Bool-cases, inl, inr, if◌then◌else◌,
}
use nell_db.Base.Int.{ℤ, ltb_ℤ}
use nell_db.Base.Bytes.{Bytes, eqb}
use nell_db.Base.Map.{Map, lookup, insert, lookup-insert}

pub record Numbers (F : Type 0) : Type 0 where
  pub zero_f : F
  pub one_f : F
  pub add : F → F → F
  pub sub : F → F → F
  pub mul : F → F → F
  pub less : F → F → Bool
  pub less_eq : F → F → Bool
  -- `now.Sub(last).Seconds()`
  pub seconds : ℤ → ℤ → F

pub record Bucket (F : Type 0) : Type 0 where
  pub tokens : F
  pub last_ref : ℤ

pub record RateLimiter (F : Type 0) : Type 0 where
  pub rate : F
  pub burst : F
  pub state : Map (Bucket F)

module _ {F : Type 0} (num : Numbers F) where
  unfoldable pub new_rate_limiter : F → F → RateLimiter F
  new_rate_limiter rate burst = record { rate = rate; burst = burst; state = [] }

  unfoldable pub bucket_or_full : F → ℤ → Option (Bucket F) → Bucket F
  bucket_or_full burst now none = record { tokens = burst; last_ref = now }
  bucket_or_full burst now (some b) = b

  unfoldable pub refill : RateLimiter F → ℤ → Bucket F → Bucket F
  refill rl now b =
      let tokens = num.add b.tokens (num.mul (num.seconds now b.last_ref) rl.rate) in
      record { tokens = if num.less rl.burst tokens then rl.burst else tokens; last_ref = now }

  -- `Allow`: the limiter afterwards, and whether the request may proceed.
  unfoldable pub allow : Bytes → ℤ → RateLimiter F → RateLimiter F × Bool
  allow ip now rl =
      let b = refill rl now (bucket_or_full rl.burst now (lookup ip rl.state)) in
      let paid = record b { tokens = num.sub b.tokens num.one_f } in
      if num.less_eq rl.rate num.zero_f
      then (rl, true)
      else if num.less_eq num.one_f b.tokens
      then (record rl { state = insert ip paid rl.state }, true)
      else (record rl { state = insert ip b rl.state }, false)

  -- A turn of `cleanupLoop`.
  unfoldable pub drop_idle : ℤ → Map (Bucket F) → Map (Bucket F)
  drop_idle cutoff [] = []
  drop_idle cutoff ((ip, b) ∷ m) =
      let rest = drop_idle cutoff m in if ltb_ℤ b.last_ref cutoff then rest else (ip, b) ∷ rest

  unfoldable pub cleanup : ℤ → RateLimiter F → RateLimiter F
  cleanup cutoff rl = record rl { state = drop_idle cutoff rl.state }

  unfoldable pub client_ip : Bytes → Bytes → Bytes
  client_ip [] remote_addr = remote_addr
  client_ip (b ∷ forwarded) remote_addr = b ∷ forwarded

  -- `Middleware`: whether the next handler is called, from the header and the address.
  unfoldable pub middleware : Bytes → Bytes → ℤ → RateLimiter F → RateLimiter F × Bool
  middleware forwarded remote_addr now rl = allow (client_ip forwarded remote_addr) now rl

  -- What the proofs use of floats: no number is less than itself, and taking one away gives
  -- nothing greater.
  pub record IsOrdered : Type 0 where
    pub irreflexive : (a : F) → num.less a a ≡ false
    pub sub_one : (a b : F) → num.less b a ≡ false → num.less b (num.sub a num.one_f) ≡ false

  -- No bucket holds more than the burst.
  pub IsCapped : RateLimiter F → Type 0
  IsCapped rl =
      (ip : Bytes) (b : Bucket F) → lookup ip rl.state ≡ some b → num.less rl.burst b.tokens ≡ false

  refill_le :
      (ordered : IsOrdered) (rl : RateLimiter F) (now : ℤ) (b : Bucket F)
      → num.less rl.burst (refill rl now b).tokens ≡ false
  unfolding refill
  refill_le ordered rl now b =
      let tokens = num.add b.tokens (num.mul (num.seconds now b.last_ref) rl.rate) in
      elim (Bool-cases (num.less rl.burst tokens)) [
        | inl t ↦ rw t (ordered.irreflexive rl.burst)
        | inr t ↦ rw t t
      ]

  insert-IsCapped :
      (rl : RateLimiter F) (ip : Bytes) (new : Bucket F)
      → IsCapped rl
      → num.less rl.burst new.tokens ≡ false
      → IsCapped (record rl { state = insert ip new rl.state })
  unfolding IsCapped
  insert-IsCapped rl ip new capped small k b found = elim (Bool-cases (eqb ip k)) [
    | inl t ↦
        let same : some new ≡ some b = rw (lookup-insert ip k new rl.state, t) at found in
        let is_new : new ≡ b = cc in rw (← is_new) small
    | inr t ↦ capped k b (rw (lookup-insert ip k new rl.state, t) at found)
  ]

  -- `Allow` keeps every bucket at the burst at most, for every address and time.
  pub allow-IsCapped :
      (ordered : IsOrdered) (ip : Bytes) (now : ℤ) (rl : RateLimiter F)
      → IsCapped rl
      → IsCapped (allow ip now rl).0
  unfolding allow
  allow-IsCapped ordered ip now rl capped =
      let b = refill rl now (bucket_or_full rl.burst now (lookup ip rl.state)) in
      let small = refill_le ordered rl now (bucket_or_full rl.burst now (lookup ip rl.state)) in
      elim (Bool-cases (num.less_eq rl.rate num.zero_f)) [
        | inl t ↦ rw t capped
        | inr t ↦ elim (Bool-cases (num.less_eq num.one_f b.tokens)) [
          | inr u ↦ rw (t, u) (insert-IsCapped rl ip b capped small)
          | inl u ↦
              rw (t, u)
                (insert-IsCapped rl ip (record b { tokens = num.sub b.tokens num.one_f }) capped
                  (ordered.sub_one b.tokens rl.burst small))
        ]
      ]
