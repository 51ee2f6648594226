-- ===== src/Runtime/Channel/Fifo.antt =====
-- The ring of a channel is a bounded first-in first-out queue.
use native.Mathlib.Numerals.{add-one}
use native.Mathlib.Nat.{mod-eq_of_lt, mod-eq-sub-mod}
use arcana.Common.{
  ℕ, zero, suc, ◌+◌, ◌-◌, ◌%◌, ◌≤◌, ◌<◌, ◌≡◌, ◌≢◌, refl, sym, ap, ◌∙◌, ◌⊎◌, inl, inr, true, false,
  List, [], ◌∷◌, ◌++◌, arith, ltb, if◌then◌else◌, length, get_or, set, length-set, length-replicate,
  Bool-cases, tests,
}
use arcana.Runtime.Object.{Value, null, Ring}
use arcana.Runtime.Channel.{
  channel_new, send_waits, send_closed, sent, channel_send, recv_waits, recv_closed, received,
  channel_recv,
}

-- The `n` values that are stored from the `i`-th slot behind `head` on, oldest first.
unfoldable pub stored : List Value → ℕ → ℕ → ℕ → ℕ → List Value
stored buffer cap head i zero = []
stored buffer cap head i (suc n) =
    get_or buffer ((head + i) % cap) null ∷ stored buffer cap head (suc i) n

-- The queue that the ring stands for.
abbrev pub queue : Ring → List Value
queue ch = stored ch.buffer ch.cap ch.head 0 ch.count

pub record IsRing (ch : Ring) : Type 0 where
  pub size : length ch.buffer ≡ ch.cap
  pub head_lt : ch.head < ch.cap
  pub count_le : ch.count ≤ ch.cap
  pub tail_at : ch.tail ≡ (ch.head + ch.count) % ch.cap

-- An index below twice the capacity wraps at most once.
wrap : (x c : ℕ) → x < c + c → (x < c) × (x % c ≡ x) ⊎ (c ≤ x) × (x % c + c ≡ x)
wrap x c h = elim (Bool-cases (ltb x c)) [
  | inl low ↦ inl (omega (tests, low), mod-eq_of_lt (omega (tests, low)))
  | inr high ↦ inr (
    omega (tests, high),
    omega (
      tests,
      high,
      mod-eq-sub-mod {n = x} {m = c} (omega (tests, high)),
      mod-eq_of_lt {n = x - c} {m = c} (omega (tests, high)),
    ),
  )
]

slots_ne : (head i n c : ℕ) → head < c → i < n → n < c → (head + i) % c ≢ (head + n) % c
slots_ne head i n c h hi hn e =
    omega (arith, wrap (head + i) c (omega arith), wrap (head + n) c (omega arith))

get_or-set_self :
    (xs : List Value) (i : ℕ) (v : Value) → i < length xs → get_or (set xs i v) i null ≡ v
get_or-set_self [] i v h = elim h [ ]
get_or-set_self (x ∷ xs) zero v h = refl
get_or-set_self (x ∷ xs) (suc i) v h = get_or-set_self xs i v (omega arith)

get_or-set_ne :
    (xs : List Value) (i j : ℕ) (v : Value) → i ≢ j → get_or (set xs i v) j null ≡ get_or xs j null
get_or-set_ne [] i j v h = refl
get_or-set_ne (x ∷ xs) zero zero v h = absurd (h refl)
get_or-set_ne (x ∷ xs) zero (suc j) v h = refl
get_or-set_ne (x ∷ xs) (suc i) zero v h = refl
get_or-set_ne (x ∷ xs) (suc i) (suc j) v h = get_or-set_ne xs i j v (λ e. h (ap suc e))

-- A write at the slot behind the last one stored appends.
stored-set :
    (buffer : List Value) (c head i n m : ℕ) (v : Value)
    → length buffer ≡ c
    → head < c
    → m ≡ i + n
    → m < c
    → stored (set buffer ((head + m) % c) v) c head i (suc n) ≡ stored buffer c head i n ++ v ∷ []
unfolding stored
stored-set buffer c head i zero m v size h at few =
    let e : i ≡ m = omega arith in
    let inside : (head + m) % c < length buffer = omega (arith, wrap (head + m) c (omega arith)) in
    ap (λ w. w ∷ []) (rw e (get_or-set_self buffer ((head + m) % c) v inside))
stored-set buffer c head i (suc n) m v size h at few =
    rw
      (get_or-set_ne buffer ((head + m) % c) ((head + i) % c) v
        (λ e. slots_ne head i m c h (omega arith) few (sym e)))
      (ap (λ t. get_or buffer ((head + i) % c) null ∷ t)
        (stored-set buffer c head (suc i) n m v size h (omega arith) few))

-- Moving the head by one drops the first slot.
stored-shift :
    (buffer : List Value) (c head i n : ℕ)
    → head < c
    → i + n < c
    → stored buffer c ((head + 1) % c) i n ≡ stored buffer c head (suc i) n
unfolding stored
stored-shift buffer c head i zero h few = refl
stored-shift buffer c head i (suc n) h few =
    let e : ((head + 1) % c + i) % c ≡ (head + suc i) % c = omega (
      arith,
      wrap (head + 1) c (omega arith),
      wrap ((head + 1) % c + i) c (omega (arith, wrap (head + 1) c (omega arith))),
      wrap (head + suc i) c (omega arith),
    ) in
    rw e (
      ap (λ t. get_or buffer ((head + suc i) % c) null ∷ t)
        (stored-shift buffer c head (suc i) n h (omega arith)))

stored-pop :
    (buffer : List Value) (c head n : ℕ)
    → head < c
    → 0 < n
    → n ≤ c
    → stored buffer c head 0 n
      ≡ get_or buffer head null ∷ stored buffer c ((head + 1) % c) 0 (n - 1)
unfolding stored
stored-pop buffer c head zero h pos le = absurd (omega arith)
stored-pop buffer c head (suc n) h pos le =
    let e : (head + 0) % c ≡ head = omega (arith, wrap (head + 0) c (omega arith)) in
    let m : suc n - 1 ≡ n = omega arith in
    rw (m, e)
      (ap (λ t. get_or buffer head null ∷ t) (sym (stored-shift buffer c head 0 n h (omega arith))))

-- A new channel is a well-formed empty ring of at least one slot.
pub channel_new-IsRing :
    (capacity : ℕ) → IsRing (channel_new capacity) × (queue (channel_new capacity) ≡ [])
unfolding channel_new stored
channel_new-IsRing capacity =
    let size = if ltb 0 capacity then capacity else 1 in
    (
      record {
        size = length-replicate size null;
        head_lt = ground arith;
        count_le = omega arith;
        tail_at = sym (mod-eq_of_lt (ground arith));
      },
      refl,
    )

-- What a send does: it waits exactly on an open full channel, and fails exactly on a closed one.
-- Otherwise it appends the value to the queue and keeps the ring well formed.
pub record Sent (ch t : Ring) (v : Value) : Type 0 where
  pub result : channel_send ch v ≡ sent t
  pub room : ch.count < ch.cap
  pub ring : IsRing t
  pub appended : queue t ≡ queue ch ++ v ∷ []
  pub open_before : ch.closed ≡ false
  pub same_closed : t.closed ≡ ch.closed
  pub same_cap : t.cap ≡ ch.cap

pub record Received (ch t : Ring) (v : Value) : Type 0 where
  pub result : channel_recv ch ≡ received v t
  pub ring : IsRing t
  pub oldest : queue ch ≡ v ∷ queue t
  pub same_closed : t.closed ≡ ch.closed
  pub same_cap : t.cap ≡ ch.cap

module _ (ch : Ring) (r : IsRing ch) where
  send_full : (v : Value) → ch.count ≡ ch.cap → ch.closed ≡ false → channel_send ch v ≡ send_waits
  unfolding channel_send
  send_full v e o = ground arith

  send_shut : (v : Value) → ch.closed ≡ true → channel_send ch v ≡ send_closed
  unfolding channel_send
  send_shut v o = ground arith

  abbrev after_send : Value → Ring
  after_send v = record ch {
    buffer = set ch.buffer ch.tail v;
    tail = (ch.tail + 1) % ch.cap;
    count = ch.count + 1;
  }

  send_room :
      (v : Value) → ch.count < ch.cap → ch.closed ≡ false → channel_send ch v ≡ sent (after_send v)
  unfolding channel_send
  send_room v h o = ground arith

  next_tail : ch.count < ch.cap → (ch.tail + 1) % ch.cap ≡ (ch.head + (ch.count + 1)) % ch.cap
  next_tail h =
      let tail_lt : ch.tail < ch.cap =
        omega (arith, r.tail_at, wrap (ch.head + ch.count) ch.cap (omega (arith, r.head_lt))) in
      omega (
        arith,
        r.tail_at,
        wrap (ch.head + ch.count) ch.cap (omega (arith, r.head_lt)),
        wrap (ch.tail + 1) ch.cap (omega arith),
        wrap (ch.head + (ch.count + 1)) ch.cap (omega (arith, r.head_lt)),
      )

  queue-send : (v : Value) → ch.count < ch.cap → queue (after_send v) ≡ queue ch ++ v ∷ []
  queue-send v h =
      rw (add-one ch.count, r.tail_at)
        (stored-set ch.buffer ch.cap ch.head 0 ch.count ch.count v r.size r.head_lt (omega arith) h)

  send_Sent : (v : Value) → ch.count < ch.cap → ch.closed ≡ false → Sent ch (after_send v) v
  send_Sent v h o = record {
    result = send_room v h o;
    room = h;
    ring = record {
      size = length-set ch.buffer ch.tail v ∙ r.size;
      head_lt = r.head_lt;
      count_le = omega (arith, h);
      tail_at = next_tail h;
    };
    appended = queue-send v h;
    open_before = o;
    same_closed = refl;
    same_cap = refl;
  }

  -- A send waits on an open full channel, fails on a closed one, and otherwise appends its value to
  -- the queue of a channel that stays well formed.
  pub channel_send-queue :
      (v : Value)
      → ((channel_send ch v ≡ send_waits) × (ch.count ≡ ch.cap) × (ch.closed ≡ false))
        ⊎ ((channel_send ch v ≡ send_closed) × (ch.closed ≡ true))
        ⊎ ((t : Ring) × Sent ch t v)
  channel_send-queue v = elim (Bool-cases ch.closed) [
    | inl shut ↦ inr (inl (send_shut v shut, shut))
    | inr o ↦ elim (Bool-cases (ltb ch.count ch.cap)) [
      | inl room ↦ inr (inr (after_send v, send_Sent v (omega (tests, room)) o))
      | inr full ↦
          let e : ch.count ≡ ch.cap = omega (tests, full, r.count_le) in inl (send_full v e o, e, o)
    ]
  ]

  recv_none : ch.count ≡ 0 → ch.closed ≡ false → channel_recv ch ≡ recv_waits
  unfolding channel_recv
  recv_none e o = ground arith

  recv_shut : ch.count ≡ 0 → ch.closed ≡ true → channel_recv ch ≡ recv_closed
  unfolding channel_recv
  recv_shut e o = ground arith

  abbrev after_recv : Ring
  after_recv = record ch { head = (ch.head + 1) % ch.cap; count = ch.count - 1 }

  recv_some : 0 < ch.count → channel_recv ch ≡ received (get_or ch.buffer ch.head null) after_recv
  unfolding channel_recv
  recv_some h = ground arith

  same_tail : 0 < ch.count → ch.tail ≡ ((ch.head + 1) % ch.cap + (ch.count - 1)) % ch.cap
  same_tail h = omega (
    arith,
    r.tail_at,
    wrap (ch.head + ch.count) ch.cap (omega (arith, r.head_lt, r.count_le)),
    wrap (ch.head + 1) ch.cap (omega (arith, r.head_lt)),
    wrap ((ch.head + 1) % ch.cap + (ch.count - 1)) ch.cap (
        omega (arith, r.head_lt, r.count_le, wrap (ch.head + 1) ch.cap (omega (arith, r.head_lt)))),
  )

  recv_Received : 0 < ch.count → Received ch after_recv (get_or ch.buffer ch.head null)
  recv_Received h = record {
    result = recv_some h;
    ring = record {
      size = r.size;
      head_lt = omega (arith, wrap (ch.head + 1) ch.cap (omega (arith, r.head_lt)), r.head_lt);
      count_le = omega (arith, r.count_le);
      tail_at = same_tail h;
    };
    oldest = stored-pop ch.buffer ch.cap ch.head ch.count r.head_lt h r.count_le;
    same_closed = refl;
    same_cap = refl;
  }

  empty_queue : ch.count ≡ 0 → queue ch ≡ []
  unfolding stored
  empty_queue e = ap (stored ch.buffer ch.cap ch.head 0) e

  -- A receive waits on an open empty channel, fails on a closed empty one, and otherwise takes the
  -- oldest value of the queue of a channel that stays well formed.
  pub channel_recv-queue :
      ((channel_recv ch ≡ recv_waits) × (queue ch ≡ []) × (ch.closed ≡ false))
      ⊎ ((channel_recv ch ≡ recv_closed) × (queue ch ≡ []) × (ch.closed ≡ true))
      ⊎ ((v : Value) × (t : Ring) × Received ch t v)
  channel_recv-queue = elim (Bool-cases (ltb 0 ch.count)) [
    | inl some ↦
        inr (inr (get_or ch.buffer ch.head null, after_recv, recv_Received (omega (tests, some))))
    | inr empty ↦
        let e : ch.count ≡ 0 = omega (tests, empty) in
        elim (Bool-cases ch.closed) [
          | inl shut ↦ inr (inl (recv_shut e shut, empty_queue e, shut))
          | inr o ↦ inl (recv_none e o, empty_queue e, o)
        ]
  ]
