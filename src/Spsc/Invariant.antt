-- ===== src/Spsc/Invariant.antt =====
-- What every reachable state of an SPSC channel satisfies, and that each step keeps it.
use mathlib.Core.Path.{ap₂}
use seakcutils.Window.{mod_ne}
use seakcutils.Base.{
  add_size, ℕ, suc, ◌+◌, ◌%◌, ◌^◌, ◌≤◌, ◌<◌, ◌≡◌, ◌≢◌, sym, refl, some, List, [], ◌∷◌, ◌++◌, length,
  get_elem?, arith, length-append, ◌∙◌, ap, take, map, dec_lt,
}
use seakcutils.Channel.{closed}
use seakcutils.Spsc.{
  ChannelSpsc, SendPc, RecvPc, spsc_try_send, spsc_recv, System, log_sent, log_got, spsc_close,
}
use seakcutils.Mpmc.Senders.{get_elem?-append, get_elem?-append_self}

module _ {A : Type 0} where
  abbrev pub SendOk : ChannelSpsc A → SendPc A → Type 0
  SendOk c (SendPc.load_tail h v) = h ≡ c.head
  SendOk c (SendPc.copy i v) = (i ≡ c.head % c.capacity) × (c.head < c.tail + c.capacity)
  SendOk c (SendPc.advance v) =
      (c.head < c.tail + c.capacity) × (c.elems (c.head % c.capacity) ≡ some v)
  SendOk c _ = Unit

  abbrev pub RecvOk : ChannelSpsc A → List A → RecvPc A → Type 0
  RecvOk c sent (RecvPc.load_head t) = t ≡ c.tail
  RecvOk c sent (RecvPc.copy i) = (i ≡ c.tail % c.capacity) × (c.tail < c.head)
  RecvOk c sent (RecvPc.advance out) = (c.tail < c.head) × (out ≡ get_elem? sent c.tail)
  RecvOk c sent _ = Unit

  pub record Inv (cap steps : ℕ) (s : System A) : Type 0 where
    pub sized : s.chan.capacity ≡ cap
    pub head_le : s.chan.head ≤ steps
    pub logged : length s.sent ≡ s.chan.head
    pub count : length s.got ≡ s.chan.tail
    pub tail-le-head : s.chan.tail ≤ s.chan.head
    pub head-le-tail : s.chan.head ≤ s.chan.tail + cap
    pub window :
        (k : ℕ)
        → s.chan.tail ≤ k
        → k < s.chan.head
        → s.chan.elems (k % s.chan.capacity) ≡ get_elem? s.sent k
    pub in_order : s.got ≡ map some (take s.chan.tail s.sent)
    pub send_ok : SendOk s.chan s.sender
    pub recv_ok : RecvOk s.chan s.sent s.receiver

  take-append : (n : ℕ) (xs ys : List A) → n ≤ length xs → take n (xs ++ ys) ≡ take n xs
  take-append ℕ.zero xs ys h = refl
  take-append (suc n) [] ys h = absurd (omega arith)
  take-append (suc n) (x ∷ xs) ys h = ap (λ l. x ∷ l) (take-append n xs ys (omega arith))

  -- One more element.
  map-take-suc :
      (n : ℕ) (xs : List A)
      → n < length xs
      → map some (take n xs) ++ get_elem? xs n ∷ [] ≡ map some (take (suc n) xs)
  map-take-suc n [] h = absurd (omega arith)
  map-take-suc ℕ.zero (x ∷ xs) h = refl
  map-take-suc (suc n) (x ∷ xs) h = ap (λ l. some x ∷ l) (map-take-suc n xs (omega arith))

module _ {A : Type 0} {cap n : ℕ} {s : System A} (v : Inv cap n s)
    (small : n + cap + 1 < 2 ^ 64) where
  open v use {
    sized, head_le, logged, count, tail-le-head, head-le-tail, window, in_order, send_ok, recv_ok,
  }

  -- The place behind the window is not in it.
  apart :
      (k : ℕ)
      → s.chan.tail ≤ k
      → k < s.chan.head
      → s.chan.head < s.chan.tail + s.chan.capacity
      → k % s.chan.capacity ≢ s.chan.head % s.chan.capacity
  apart k low high room = mod_ne k s.chan.head s.chan.capacity high (omega arith)

  -- A move that leaves the channel alone.
  pub sender_moves : (p : SendPc A) → SendOk s.chan p → Inv cap (suc n) (record s { sender = p })
  sender_moves p h = record {
    sized = sized;
    head_le = omega arith;
    logged = logged;
    count = count;
    tail-le-head = tail-le-head;
    head-le-tail = head-le-tail;
    window = window;
    in_order = in_order;
    send_ok = h;
    recv_ok = recv_ok;
  }

  pub receiver_moves :
      (p : RecvPc A) → RecvOk s.chan s.sent p → Inv cap (suc n) (record s { receiver = p })
  receiver_moves p h = record {
    sized = sized;
    head_le = omega arith;
    logged = logged;
    count = count;
    tail-le-head = tail-le-head;
    head-le-tail = head-le-tail;
    window = window;
    in_order = in_order;
    send_ok = send_ok;
    recv_ok = h;
  }

  pub close-Inv : Inv cap (suc n) (record s { chan = spsc_close s.chan })
  unfolding spsc_close
  close-Inv = record {
    sized = sized;
    head_le = omega arith;
    logged = logged;
    count = count;
    tail-le-head = tail-le-head;
    head-le-tail = head-le-tail;
    window = window;
    in_order = in_order;
    send_ok = shut_send s.sender send_ok;
    recv_ok = shut_recv s.receiver recv_ok;
  }
    where
      shut : ChannelSpsc A
      shut = record s.chan { state = closed }

      shut_send : (p : SendPc A) → SendOk s.chan p → SendOk shut p
      shut_send (SendPc.start x) h = h
      shut_send _ h = h

      shut_recv : (p : RecvPc A) → RecvOk s.chan s.sent p → RecvOk shut s.sent p
      shut_recv RecvPc.load_tail h = h
      shut_recv _ h = h

  -- The receiver's locals and the sender's steps, and the other way round.
  recv_beside_write :
      (p : RecvPc A) (c : ChannelSpsc A) (l : List A)
      → c.tail ≡ s.chan.tail
      → c.capacity ≡ s.chan.capacity
      → s.chan.head ≤ c.head
      → ((t : ℕ) → t < s.chan.head → get_elem? l t ≡ get_elem? s.sent t)
      → RecvOk s.chan s.sent p
      → RecvOk c l p
  recv_beside_write (RecvPc.load_head t) c l e g le same h = ground arith
  recv_beside_write (RecvPc.copy i) c l e g le same h = (rw (e, g) h.0, omega (arith, h.1))
  recv_beside_write (RecvPc.advance out) c l e g le same h =
      (omega arith, ground (arith, same s.chan.tail))
  recv_beside_write _ c l e g le same h = tt

  pub sender-Inv :
      (p : SendPc A)
      → SendOk s.chan p
      → let (p', c) = spsc_try_send p s.chan in
        Inv cap (suc n) (record s { chan = c; sender = p'; sent = log_sent p s.sent })
  unfolding spsc_try_send
  sender-Inv (SendPc.start x) h = sender_moves _ (ground arith)
  sender-Inv (SendPc.load_head x) h = sender_moves _ refl
  sender-Inv (SendPc.load_tail k x) h = sender_moves _ (ground arith)
  sender-Inv (SendPc.copy k x) h = record {
    sized = sized;
    head_le = omega arith;
    logged = logged;
    count = count;
    tail-le-head = tail-le-head;
    head-le-tail = head-le-tail;
    window = λ j low high. ground (arith, window j low high, apart j low high);
    in_order = in_order;
    send_ok = ground arith;
    recv_ok =
        recv_beside_write s.receiver (spsc_try_send (SendPc.copy k x) s.chan).1 s.sent refl refl
          (omega arith) (λ t lt. refl) recv_ok;
  }
  sender-Inv (SendPc.advance x) h = record {
    sized = sized;
    head_le = omega arith;
    logged = omega (arith, length-append s.sent (x ∷ []));
    count = count;
    tail-le-head = omega arith;
    head-le-tail = omega arith;
    window = λ k low high. elim (dec_lt k s.chan.head) [
      | yes old ↦ window k low old ∙ sym (get_elem?-append s.sent (x ∷ []) k (omega arith))
      | no new ↦
          let e : k ≡ s.chan.head = omega arith in
          ap (λ j. s.chan.elems (j % s.chan.capacity)) e
          ∙ h.1
          ∙ sym (get_elem?-append_self s.sent x)
          ∙ ap (get_elem? (s.sent ++ x ∷ [])) (omega arith)
    ];
    in_order =
        in_order ∙ ap (map some) (sym (take-append s.chan.tail s.sent (x ∷ []) (omega arith)));
    send_ok = tt;
    recv_ok =
        recv_beside_write s.receiver (spsc_try_send (SendPc.advance x) s.chan).1 (s.sent ++ x ∷ [])
          refl refl (omega arith) (λ t lt. get_elem?-append s.sent (x ∷ []) t (omega arith))
          recv_ok;
  }
  sender-Inv (SendPc.returned c) h = sender_moves _ tt
  sender-Inv SendPc.trapped h = sender_moves _ tt

  send_beside_read :
      (p : SendPc A) (c : ChannelSpsc A)
      → c.elems ≡ s.chan.elems
      → c.capacity ≡ s.chan.capacity
      → c.head ≡ s.chan.head
      → s.chan.tail ≤ c.tail
      → SendOk s.chan p
      → SendOk c p
  send_beside_read (SendPc.load_tail k x) c e f g le h = ground arith
  send_beside_read (SendPc.copy k x) c e f g le h = ground arith
  send_beside_read (SendPc.advance x) c e f g le h = (omega arith, rw (e, f, g) h.1)
  send_beside_read _ c e f g le h = tt

  tail_fits : s.chan.tail < s.chan.head → suc s.chan.tail ≡ add_size s.chan.tail 1
  tail_fits h = omega arith

  pub receiver-Inv :
      (p : RecvPc A)
      → RecvOk s.chan s.sent p
      → let (p', c) = spsc_recv p s.chan in
        Inv cap (suc n) (record s { chan = c; receiver = p'; got = log_got p s.got })
  unfolding spsc_recv
  receiver-Inv RecvPc.load_tail h = receiver_moves _ refl
  receiver-Inv (RecvPc.load_head t) h = receiver_moves _ (ground arith)
  receiver-Inv (RecvPc.copy t) h =
      receiver_moves _ (h.1, ap s.chan.elems h.0 ∙ window s.chan.tail (omega arith) h.1)
  receiver-Inv (RecvPc.advance out) h = record {
    sized = sized;
    head_le = omega arith;
    logged = logged;
    count = omega (arith, length-append s.got (out ∷ []));
    tail-le-head = omega arith;
    head-le-tail = omega arith;
    window = λ k low high. window k (omega arith) high;
    in_order =
        ap₂ (λ l o. l ++ o ∷ []) in_order h.1
        ∙ map-take-suc s.chan.tail s.sent (omega arith)
        ∙ ap (λ k. map some (take k s.sent)) (tail_fits h.0);
    send_ok =
        send_beside_read s.sender (spsc_recv (RecvPc.advance out) s.chan).1 refl refl refl
          (omega arith) send_ok;
    recv_ok = tt;
  }
  receiver-Inv (RecvPc.returned c out) h = receiver_moves _ tt
  receiver-Inv RecvPc.trapped h = receiver_moves _ tt
