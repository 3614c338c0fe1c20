-- ===== src/Doc/Changes.antt =====
-- `Changes` of sdk/db_changes.go: the goroutine that forwards a subscriber's changes from the hub's channel
-- to the reader's, as steps that the hub, the goroutine, the reader and the context take in any order.
use nell_db.Base.{
  ℕ, suc, ◌+◌, ◌<◌, ◌≤◌, ◌≡◌, ◌≢◌, ◌∙◌, refl, sym, ap, Bool, true, false, List, [], ◌∷◌, ◌++◌,
  length, arith, append-nil, append_assoc, length-append, ltb, if◌then◌else◌, Bool-cases, inl, inr,
}
use nell_db.Doc.Feed.{Change, Channel, hub_buffer, try_send}

-- The buffer of the reader's channel.
abbrev pub out_buffer : ℕ
out_buffer = 64

-- Where the goroutine is: in the outer select, in `forward` with a change before or after the first
-- select of it, in the draining loop, and at its end. `draining` tells which loop `forward` returns to.
pub data Place : Type 0 where
  waiting : Place
  forwarding blocked : Change → Place
  closed : Place

-- `accepted` is what the hub's channel has taken since the subscription, and `received` what the
-- reader has read.
pub record Feed : Type 0 where
  pub accepted : List Change
  pub src : Channel
  pub place : Place
  pub draining : Bool
  pub cancelled : Bool
  pub out : Channel
  pub received : List Change

unfoldable pub new_feed : Feed
new_feed = record {
  accepted = [];
  src = [];
  place = waiting;
  draining = false;
  cancelled = false;
  out = [];
  received = [];
}

-- `broadcast` on the subscriber's channel.
unfoldable pub publish : Change → Feed → Feed
publish c f = record f {
  src = try_send hub_buffer f.src c;
  accepted = if ltb (length f.src) hub_buffer then f.accepted ++ (c ∷ []) else f.accepted;
}

pub data Step : Feed → Feed → Type 0 where
  published : (f : Feed) (c : Change) → f.place ≢ closed → Step f (publish c f)
  cancels : (f : Feed) → Step f (record f { cancelled = true })
  starts_draining :
      (f : Feed) → f.cancelled ≡ true → f.place ≡ waiting → Step f (record f { draining = true })
  takes :
      (f : Feed) (c : Change) (rest : Channel)
      → f.place ≡ waiting
      → f.src ≡ c ∷ rest
      → Step f (record f { src = rest; place = forwarding c })
  sends :
      (f : Feed) (c : Change)
      → f.place ≡ forwarding c
      → length f.out < out_buffer
      → Step f (record f { out = f.out ++ (c ∷ []); place = waiting })
  blocks :
      (f : Feed) (c : Change)
      → f.place ≡ forwarding c
      → out_buffer ≤ length f.out
      → Step f (record f { place = blocked c })
  sends_late :
      (f : Feed) (c : Change)
      → f.place ≡ blocked c
      → length f.out < out_buffer
      → Step f (record f { out = f.out ++ (c ∷ []); place = waiting })
  gives_up :
      (f : Feed) (c : Change)
      → f.place ≡ blocked c
      → f.cancelled ≡ true
      → Step f (record f { place = waiting })
  closes :
      (f : Feed)
      → f.draining ≡ true
      → f.place ≡ waiting
      → f.src ≡ []
      → Step f (record f { place = closed })
  reads :
      (f : Feed) (c : Change) (rest : Channel)
      → f.out ≡ c ∷ rest
      → Step f (record f { out = rest; received = f.received ++ (c ∷ []) })

pub data Reach : Feed → Type 0 where
  opened : Reach new_feed
  next : {f g : Feed} → Reach f → Step f g → Reach g

abbrev pub held : Place → List Change
held waiting = []
held (forwarding c) = c ∷ []
held (blocked c) = c ∷ []
held closed = []

-- What was accepted and not dropped, in the order that the reader gets it.
abbrev pub pending : Feed → List Change
pending f = f.received ++ (f.out ++ (held f.place ++ f.src))

pub record IsSound (f : Feed) : Type 0 where
  pub complete : f.cancelled ≡ false → pending f ≡ f.accepted
  pub src_fits : length f.src ≤ hub_buffer
  pub out_fits : length f.out ≤ out_buffer

pending-publish :
    (c : Change) (f : Feed)
    → pending f ≡ f.accepted
    → pending (publish c f) ≡ (publish c f).accepted
unfolding publish try_send
pending-publish c f e = elim (Bool-cases (ltb (length f.src) hub_buffer)) [
  | inr t ↦ rw t e
  | inl t ↦ rw t (
      ap (λ x. f.received ++ x)
        (ap (λ x. f.out ++ x) (sym (append_assoc (held f.place) f.src (c ∷ [])))
          ∙ sym (append_assoc f.out (held f.place ++ f.src) (c ∷ [])))
      ∙ sym (append_assoc f.received (f.out ++ (held f.place ++ f.src)) (c ∷ []))
      ∙ ap (λ x. x ++ (c ∷ [])) e)
]

try_send-fits : (n : ℕ) (ch : Channel) (c : Change) → length ch ≤ n → length (try_send n ch c) ≤ n
unfolding try_send
try_send-fits n ch c h = ground (arith, length-append ch (c ∷ []))

take_fits :
    {n : ℕ} (ch : Channel) (c : Change) (rest : Channel)
    → ch ≡ c ∷ rest
    → length ch ≤ n
    → length rest ≤ n
take_fits ch c rest e h = let l : length ch ≡ suc (length rest) = ap length e in omega arith

one_more :
    (f : Feed) (c : Change)
    → f.place ≡ forwarding c
    → pending f ≡ f.accepted
    → f.received ++ ((f.out ++ (c ∷ [])) ++ f.src) ≡ f.accepted
one_more f c p e = ap (λ x. f.received ++ x) (append_assoc f.out (c ∷ []) f.src) ∙ (rw p at e)

one_late :
    (f : Feed) (c : Change)
    → f.place ≡ blocked c
    → pending f ≡ f.accepted
    → f.received ++ ((f.out ++ (c ∷ [])) ++ f.src) ≡ f.accepted
one_late f c p e = ap (λ x. f.received ++ x) (append_assoc f.out (c ∷ []) f.src) ∙ (rw p at e)

one_read :
    (f : Feed) (c : Change) (rest : Channel)
    → f.out ≡ c ∷ rest
    → pending f ≡ f.accepted
    → (f.received ++ (c ∷ [])) ++ (rest ++ (held f.place ++ f.src)) ≡ f.accepted
one_read f c rest q e =
    append_assoc f.received (c ∷ []) (rest ++ (held f.place ++ f.src)) ∙ (rw q at e)

Step-IsSound : {f g : Feed} → Step f g → IsSound f → IsSound g
unfolding publish
Step-IsSound (published f c open_place) s = record {
  complete = λ live. pending-publish c f (s.complete live);
  src_fits = try_send-fits hub_buffer f.src c s.src_fits;
  out_fits = s.out_fits;
}
Step-IsSound (cancels f) s = record {
  complete = λ live. absurd (cc);
  src_fits = s.src_fits;
  out_fits = s.out_fits;
}
Step-IsSound (starts_draining f c p) s = record {
  complete = s.complete;
  src_fits = s.src_fits;
  out_fits = s.out_fits;
}
Step-IsSound (takes f c rest p e) s = record {
  complete = λ live. rw (p, e) at (s.complete live);
  src_fits = take_fits f.src c rest e s.src_fits;
  out_fits = s.out_fits;
}
Step-IsSound (sends f c p room) s = record {
  complete = λ live. one_more f c p (s.complete live);
  src_fits = s.src_fits;
  out_fits = omega (arith, length-append f.out (c ∷ []), room);
}
Step-IsSound (blocks f c p full) s = record {
  complete = λ live. rw p at (s.complete live);
  src_fits = s.src_fits;
  out_fits = s.out_fits;
}
Step-IsSound (sends_late f c p room) s = record {
  complete = λ live. one_late f c p (s.complete live);
  src_fits = s.src_fits;
  out_fits = omega (arith, length-append f.out (c ∷ []), room);
}
Step-IsSound (gives_up f c p gone) s = record {
  complete = λ live. absurd (cc);
  src_fits = s.src_fits;
  out_fits = s.out_fits;
}
Step-IsSound (closes f d p e) s = record {
  complete = λ live. rw p at (s.complete live);
  src_fits = s.src_fits;
  out_fits = s.out_fits;
}
Step-IsSound (reads f c rest e) s = record {
  complete = λ live. one_read f c rest e (s.complete live);
  src_fits = s.src_fits;
  out_fits = take_fits f.out c rest e s.out_fits;
}

-- In every state that the feed reaches by any interleaving of steps: as long as the context is not
-- cancelled, what the reader has read, the reader's channel, the change that the goroutine holds and
-- the hub's channel, in this order, are all the changes that the hub's channel has taken, none lost and none
-- reordered; and always the two channels hold at most 16 and 64 changes.
pub Reach-IsSound : {f : Feed} → Reach f → IsSound f
unfolding new_feed
Reach-IsSound opened = record {
  complete = λ live. refl;
  src_fits = omega arith;
  out_fits = omega arith;
}
Reach-IsSound (next r s) = Step-IsSound s (Reach-IsSound r)

drains :
    (src : Channel) (f : Feed)
    → f.src ≡ src
    → Reach f
    → f.draining ≡ true
    → f.place ≡ waiting
    → length f.out + length src ≤ out_buffer
    → (g : Feed) × Reach g
      × (g.place ≡ closed)
      × (g.received ++ g.out ≡ f.received ++ (f.out ++ src))
drains [] f e r d w room = (
  record f { place = closed },
  next r (closes f d w e),
  refl,
  ap (λ x. f.received ++ x) (sym (append-nil f.out)),
)
drains (c ∷ rest) f e r d w room =
    let taken : Feed = record f { src = rest; place = forwarding c } in
    let sent : Feed = record taken { out = f.out ++ (c ∷ []); place = waiting } in
    let here = next (next r (takes f c rest w e)) (sends taken c refl (omega arith)) in
    let (g, there, shut, all) =
      drains rest sent refl here d refl (omega (arith, length-append f.out (c ∷ []))) in
    (g, there, shut, all ∙ ap (λ x. f.received ++ x) (append_assoc f.out (c ∷ []) rest))

-- From every reachable state in which the goroutine has entered the draining loop and the reader's channel has
-- room for what the hub's channel holds, the goroutine can by itself reach its end, with the
-- reader's channel closed, and then what the reader has read and can still read is all that it
-- had, followed by all that the hub's channel held, in order.
pub drains_lem :
    (f : Feed)
    → Reach f
    → f.draining ≡ true
    → f.place ≡ waiting
    → length f.out + length f.src ≤ out_buffer
    → (g : Feed) × Reach g
      × (g.place ≡ closed)
      × (g.received ++ g.out ≡ f.received ++ (f.out ++ f.src))
drains_lem f r d w room = drains f.src f refl r d w room
