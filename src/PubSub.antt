-- ===== src/PubSub.antt =====
-- What include/Queue.h promises its clients, with no ring, no slot numbers and no cached minimum:
-- one log of messages, and a cursor into it for each consumer that has joined.
use lock_free_spmc_queue_dis.Common.{
  ℕ, ◌+◌, ◌-◌, ◌<◌, ◌≤◌, ◌≡◌, ◌≢◌, ◌⊎◌, Option, none, some, List, [], ◌∷◌, ◌++◌, Bool, true, false,
  length, get_elem?, update, ℤ, pos, negsuc,
}
use lock_free_spmc_queue_dis.Queue.{ring_size, max_consumers}

-- A call of a client, and what it returns.
pub data Op {ℓ} (T : Type ℓ) : Type ℓ where
  join : (start : ℕ) → Op T
  leave : (id : ℤ) → Op T
  send : (item : T) → Op T
  receive : (id : ℤ) → Op T

pub data Reply {ℓ} (T : Type ℓ) : Type ℓ where
  joined : (id : Option ℕ) → Reply T
  left : Reply T
  sent : (ok : Bool) → Reply T
  received : (out : Option T) → Reply T

-- `cursor i` is the number of the message that consumer `i` reads next; numbers begin at 1.
pub record PubSub {ℓ} (T : Type ℓ) : Type ℓ where
  pub log : List T
  pub cursor : ℕ → Option ℕ

module _ {ℓ} {T : Type ℓ} where
  abbrev pub Joined : PubSub T → ℕ → ℕ → Type 0
  Joined s i c = s.cursor i ≡ some c

  -- Every consumer is less than a lap behind the message that comes next.
  abbrev pub Room : PubSub T → Type 0
  Room s = (i c : ℕ) → Joined s i c → length s.log + 1 < c + ring_size

  abbrev pub Crowded : PubSub T → Type 0
  Crowded s = (i : ℕ) × (c : ℕ) × Joined s i c × (c + ring_size ≤ length s.log + 1)

  -- With nobody listening the queue may refuse from one short of a lap on.
  abbrev pub Unheard : PubSub T → Type 0
  Unheard s = ((i c : ℕ) → Joined s i c → ⊥) × (ring_size ≤ length s.log + 1)

  abbrev pub Unknown : PubSub T → ℤ → Type 0
  Unknown s (pos i) = s.cursor i ≡ none
  Unknown s (negsuc _) = Unit

  pub data Step (s s' : PubSub T) : Op T → Reply T → Type ℓ where
    admit :
        (start i : ℕ)
        → i < max_consumers
        → s.cursor i ≡ none
        → ((j : ℕ) → j < i → s.cursor j ≢ none)
        → s' ≡ record s { cursor = update s.cursor i (some start) }
        → Step s s' (join start) (joined (some i))
    no_slot :
        (start : ℕ)
        → ((j : ℕ) → j < max_consumers → s.cursor j ≢ none)
        → s' ≡ s
        → Step s s' (join start) (joined none)
    depart :
        (i : ℕ) → s' ≡ record s { cursor = update s.cursor i none } → Step s s' (leave (pos i)) left
    depart_unknown : (n : ℕ) → s' ≡ s → Step s s' (leave (negsuc n)) left
    accept :
        (item : T)
        → Room s
        → s' ≡ record s { log = s.log ++ item ∷ [] }
        → Step s s' (send item) (sent true)
    refuse : (item : T) → Crowded s ⊎ Unheard s → s' ≡ s → Step s s' (send item) (sent false)
    deliver :
        (i c : ℕ) (m : T)
        → Joined s i c
        → get_elem? s.log (c - 1) ≡ some m
        → s' ≡ record s { cursor = update s.cursor i (some (c + 1)) }
        → Step s s' (receive (pos i)) (received (some m))
    nothing_new :
        (i c : ℕ)
        → Joined s i c
        → c ≡ length s.log + 1
        → s' ≡ s
        → Step s s' (receive (pos i)) (received none)
    not_joined : (id : ℤ) → Unknown s id → s' ≡ s → Step s s' (receive id) (received none)

  -- A consumer may join at the next message, anywhere in the first lap, or level with or ahead of
  -- a consumer that has joined before.
  pub record MayJoin (s : PubSub T) (start : ℕ) : Type 0 where
    pub positive : 1 ≤ start
    pub reached : start ≤ length s.log + 1
    pub reason :
        (start ≡ length s.log + 1)
        ⊎ (length s.log + 1 < ring_size)
        ⊎ ((i : ℕ) × (c : ℕ) × Joined s i c × (c ≤ start))

  -- What a client must see to before a call.
  abbrev pub Allowed : PubSub T → ℕ → Op T → Type 0
  Allowed s limit (join start) = MayJoin s start
  Allowed s limit (leave _) = Unit
  Allowed s limit (send _) = length s.log < limit
  Allowed s limit (receive _) = Unit

  pub data Trace : PubSub T → List (Op T) → List (Reply T) → PubSub T → Type ℓ where
    done : {s : PubSub T} → Trace s [] [] s
    more :
        {op : Op T} {reply : Reply T} {ops : List (Op T)} {replies : List (Reply T)}
        {s s' s'' : PubSub T}
        → Step s s' op reply
        → Trace s' ops replies s''
        → Trace s (op ∷ ops) (reply ∷ replies) s''
