-- ===== src/Runtime/Channel/Runs.antt =====
-- Any interleaving of the sends and receives of any number of threads on one channel.
use arcana.Common.{
  ℕ, zero, suc, ◌≤◌, ◌≡◌, refl, sym, ap, ◌∙◌, subst, inl, inr, List, [], ◌∷◌, ◌++◌, arith, length,
  append_assoc, append-nil,
}
use arcana.Runtime.Object.{Value, Ring}
use arcana.Runtime.Channel.{SendResult, sent, channel_send, RecvResult, received, channel_recv}
use arcana.Runtime.Channel.Fifo.{IsRing, queue, stored, channel_send-queue, channel_recv-queue}

-- From `start` to a ring, with the values sent and those received on the way, oldest first. The
-- calls that wait or fail leave no trace.
pub data Run (start : Ring) : Ring → List Value → List Value → Type 0 where
  begin : Run start start [] []
  send :
      {ch t : Ring} {ss rs : List Value} (v : Value)
      → Run start ch ss rs
      → channel_send ch v ≡ sent t
      → Run start t (ss ++ v ∷ []) rs
  recv :
      {ch t : Ring} {ss rs : List Value} (v : Value)
      → Run start ch ss rs
      → channel_recv ch ≡ received v t
      → Run start t ss (rs ++ v ∷ [])

-- The ring and the value that a result carries.
ring_of : Ring → SendResult → Ring
ring_of d (sent t) = t
ring_of d _ = d

taken_of : Ring × Value → RecvResult → Ring × Value
taken_of d (received v t) = (t, v)
taken_of d _ = d

sent-step :
    (ch t : Ring) (v : Value)
    → IsRing ch
    → channel_send ch v ≡ sent t
    → IsRing t × (queue t ≡ queue ch ++ v ∷ [])
sent-step ch t v r e = elim (channel_send-queue ch r v) [
  | inl (w, _, _) ↦ absurd (cc)
  | inr (inl (w, _)) ↦ absurd (cc)
  | inr (inr (u, s)) ↦
      let same : u ≡ t = unfold ring_of in ap (ring_of ch) (sym s.result ∙ e) in
      subst (λ x. IsRing x × (queue x ≡ queue ch ++ v ∷ [])) same (s.ring, s.appended)
]

received-step :
    (ch t : Ring) (v : Value)
    → IsRing ch
    → channel_recv ch ≡ received v t
    → IsRing t × (queue ch ≡ v ∷ queue t)
received-step ch t v r e = elim (channel_recv-queue ch r) [
  | inl (w, _, _) ↦ absurd (cc)
  | inr (inl (w, _, _)) ↦ absurd (cc)
  | inr (inr (w, u, s)) ↦
      let same : ◌≡◌ {A = Ring × Value} (u, w) (t, v) =
        unfold taken_of in ap (taken_of (ch, v)) (sym s.result ∙ e) in
      subst (λ (x : Ring × Value). IsRing x.0 × (queue ch ≡ x.1 ∷ queue x.0)) same
        (s.ring, s.oldest)
]

stored-length : (b : List Value) (c h i n : ℕ) → length (stored b c h i n) ≡ n
unfolding stored
stored-length b c h i zero = refl
stored-length b c h i (suc n) = ap suc (stored-length b c h (suc i) n)

Run-order :
    {start t : Ring} {ss rs : List Value}
    → IsRing start
    → Run start t ss rs
    → IsRing t × (queue start ++ ss ≡ rs ++ queue t)
Run-order {start} r begin = (r, append-nil (queue start))
Run-order {start} {t} r (send {ch} {ss} {rs} v run e) =
    let (ring, order) = Run-order r run in
    let (ring', appended) = sent-step ch t v ring e in
    (
      ring',
      sym (append_assoc (queue start) ss (v ∷ []))
          ∙ ap (λ q. q ++ v ∷ []) order
          ∙ append_assoc rs (queue ch) (v ∷ [])
          ∙ ap (λ q. rs ++ q) (sym appended),
    )
Run-order {start} {t} r (recv {ch} {ss} {rs} v run e) =
    let (ring, order) = Run-order r run in
    let (ring', oldest) = received-step ch t v ring e in
    (ring', order ∙ ap (λ q. rs ++ q) oldest ∙ sym (append_assoc rs (v ∷ []) (queue t)))

-- The values received are the first values of those that were queued at the start or sent since, in
-- the order of the sends; the others are still queued, and there are at most as many as slots.
pub Run-fifo :
    (start t : Ring) (ss rs : List Value)
    → IsRing start
    → Run start t ss rs
    → IsRing t × (queue start ++ ss ≡ rs ++ queue t) × (length (queue t) ≤ t.cap)
Run-fifo start t ss rs r run =
    let (ring, order) = Run-order r run in
    (ring, order, omega (arith, stored-length t.buffer t.cap t.head 0 t.count, ring.count_le))
