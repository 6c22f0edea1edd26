-- ===== src/RedisStore/Queue.antt =====
-- StreamQueue, internal/store/redis/queue.go, and the two reads and the acknowledgement that
-- internal/scheduler/loop.go sends to the same streams.
use Prim.Native.Char.{Char, code}
use Prim.Native.String.{◌++◌ as append}
use fleetforge.Base.{
  str_eq, ℕ, zero, suc, ◌+◌, not, some, String, List, [], ◌∷◌, ◌++◌, ◌==◌, ltb, if◌then◌else◌, map,
  take, select,
}
use fleetforge.Schema.{Uuid}
use fleetforge.World.{Message, Stream, Action, command}
use fleetforge.RedisStore.Cache.{write_key}

-- queue.JobMessage, with the fields that the consumer reads.
pub record JobMessage : Type 0 where
  pub job_id : Uuid
  pub priority : ℕ
  pub required_capabilities : List String

-- strings.Join(texts, ",").
unfoldable pub join_after : String → List String → String
join_after s [] = s
join_after s (t ∷ ts) = append s (append "," (join_after t ts))

unfoldable pub join_texts : List String → String
join_texts [] = ""
join_texts (s ∷ ss) = join_after s ss

abbrev put_char : Char → List String → List String
put_char c [] = String.◌∷◌ c "" ∷ []
put_char c (s ∷ ss) = String.◌∷◌ c s ∷ ss

-- strings.Split(text, ",").
unfoldable pub split_text : String → List String
split_text String.[] = "" ∷ []
split_text (String.◌∷◌ c s) =
    let rest = split_text s in if code c == b',' then "" ∷ rest else put_char c rest

-- What the consumer makes of the field required_capabilities.
unfoldable pub read_capabilities : String → List String
read_capabilities raw = if str_eq raw "" then [] else split_text raw

-- The entry, with its field as the consumer reads it.
unfoldable pub append_entry : JobMessage → Stream → Stream
append_entry m s = record s {
  next_number = s.next_number + 1;
  undelivered =
      s.undelivered
      ++ record {
        number = s.next_number;
        job_id = some m.job_id;
        required_capabilities = read_capabilities (join_texts m.required_capabilities);
      }
        ∷ [];
}

-- XADD to the stream of the job's priority.
unfoldable pub enqueue : JobMessage → Action (Unit {0})
enqueue m = command λ r. (
  tt,
  record r { streams = write_key m.priority (append_entry m (r.streams m.priority)) r.streams },
)

abbrev pub drop : {A : Type 0} → ℕ → List A → List A
drop zero xs = xs
drop (suc n) [] = []
drop (suc n) (x ∷ xs) = drop n xs

abbrev pub read_count : ℕ
read_count = 10

-- numPriorities, and the streams in the order of their priorities.
abbrev pub num_priorities : ℕ
num_priorities = 10

abbrev pub priorities : List ℕ
priorities = 0 ∷ 1 ∷ 2 ∷ 3 ∷ 4 ∷ 5 ∷ 6 ∷ 7 ∷ 8 ∷ 9 ∷ []

-- What a read returns: each stream's messages, tagged with the stream.
unfoldable pub tag_all : List ℕ → (ℕ → List Message) → List (ℕ × Message)
tag_all [] f = []
tag_all (p ∷ ps) f = map (λ m. (p, m)) (f p) ++ tag_all ps f

unfoldable pub deliver : Stream → Stream
deliver s = record s {
  undelivered = drop read_count s.undelivered;
  pending = s.pending ++ take read_count s.undelivered;
}

-- XREADGROUP with the ID ">" and COUNT 10 for each stream.
unfoldable pub read_new : Action (List (ℕ × Message))
read_new = command λ r. (
  tag_all priorities (λ p. take read_count (r.streams p).undelivered),
  record r { streams = λ p. if ltb p num_priorities then deliver (r.streams p) else r.streams p },
)

-- XREADGROUP with the ID "0": the first entries that the consumer has not acknowledged.
unfoldable pub read_pending : Action (List (ℕ × Message))
read_pending = command λ r. (tag_all priorities (λ p. take read_count (r.streams p).pending), r)

unfoldable pub remove_pending : ℕ → Stream → Stream
remove_pending n s = record s { pending = select (λ m. not (m.number == n)) s.pending }

-- XACK.
unfoldable pub ack : ℕ → ℕ → Action (Unit {0})
ack p n =
    command λ r. (tt, record r { streams = write_key p (remove_pending n (r.streams p)) r.streams })
