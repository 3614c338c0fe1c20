-- ===== src/Doc/Feed.antt =====
-- The changes feed of sdk/changes.go.
use nell_db.Base.{ℕ, ◌+◌, ◌%◌, ◌^◌, Bool, List, [], ◌∷◌, ◌++◌, ltb, length, ◌==◌, if◌then◌else◌}
use nell_db.Base.Bytes.{Bytes}
use nell_db.Doc.{Doc}

-- `Change` of sdk/doc.go.
pub record Change : Type 0 where
  pub id : Bytes
  pub rev : Bytes
  pub deleted : Bool
  pub doc : Doc

-- A channel is what its buffer holds, the oldest first.
abbrev pub Channel : Type 0
Channel = List Change

pub record ChangesHub : Type 0 where
  pub subs : List (ℕ × Channel)
  pub next_id : ℕ

unfoldable pub new_changes_hub : ChangesHub
new_changes_hub = record { subs = []; next_id = 0 }

-- The buffer of a subscriber's channel.
abbrev pub hub_buffer : ℕ
hub_buffer = 16

-- `select { case ch <- c: default: }` on a channel with room for `size` changes.
unfoldable pub try_send : ℕ → Channel → Change → Channel
try_send size ch c = if ltb (length ch) size then ch ++ (c ∷ []) else ch

unfoldable pub subscribe : ChangesHub → ChangesHub × ℕ
subscribe h = (
  record { subs = h.subs ++ ((h.next_id, []) ∷ []); next_id = (h.next_id + 1) % 2 ^ 64 },
  h.next_id,
)

-- The cancel function that `subscribe` returns.
unfoldable pub remove_sub : ℕ → List (ℕ × Channel) → List (ℕ × Channel)
remove_sub id [] = []
remove_sub id ((j, ch) ∷ subs) =
    let rest = remove_sub id subs in if j == id then rest else (j, ch) ∷ rest

unfoldable pub unsubscribe : ℕ → ChangesHub → ChangesHub
unsubscribe id h = record h { subs = remove_sub id h.subs }

unfoldable pub send_all : List (ℕ × Channel) → Change → List (ℕ × Channel)
send_all [] c = []
send_all ((j, ch) ∷ subs) c = (j, try_send hub_buffer ch c) ∷ send_all subs c

unfoldable pub broadcast : ChangesHub → Change → ChangesHub
broadcast h c = record h { subs = send_all h.subs c }
