-- ===== src/Mpsc/Receiver.antt =====
-- A step of the receiver keeps the invariant of an MPSC channel.
use seakcutils.Base.{
  [], ◌∷◌, ◌==◌, inl, inr, Bool-cases, length-append, add_size, ne→==, none, Bool-cases, add_size,
  ℕ, suc, ◌+◌, ◌^◌, ◌≤◌, ◌<◌, ◌≡◌, Option, some, List, get_elem?, arith, refl, sym, ◌∙◌, ap,
  get_elem?-of_lt,
}
use seakcutils.Channel.{Ring, slot_of, set_slot, SendPc, send_step, recv_step}
use seakcutils.Channel
use seakcutils.Mpmc.Invariant.{SendOk, RecvOk, recv_ticket}
use seakcutils.Mpmc.Receivers.{receiver_full, beside_sender}
use seakcutils.Mpsc.{System, RecvPc, mpsc_recv, log_got}
use seakcutils.Mpmc.Calls.{later}
use seakcutils.Mpsc.Invariant.{shown_tail, Knows, Received-snoc, Ordered, show, shown, at_first}

module _ {A : Type 0} where
  -- The one receiver never shares its ticket.
  pub at_first_unique :
      (p : Channel.RecvPc A) (i j t : ℕ)
      → recv_ticket (at_first p i) ≡ some t
      → recv_ticket (at_first p j) ≡ some t
      → i ≡ j
  at_first_unique p ℕ.zero ℕ.zero t a b = refl
  at_first_unique p ℕ.zero (suc j) t a b = cc
  at_first_unique p (suc i) j t a b = cc

  pub at_first-RecvOk :
      (r : Ring A) (sent : List A) (p : Channel.RecvPc A) (i : ℕ)
      → RecvOk r sent p
      → RecvOk r sent (at_first p i)
  at_first-RecvOk r sent p ℕ.zero h = h
  at_first-RecvOk r sent p (suc i) h = tt

  -- What a sender knows does not depend on the tail.
  pub SendOk-tail :
      (r : Ring A) (sent : List A) (k : ℕ) (p : SendPc A)
      → SendOk r sent p
      → SendOk (record r { tail = k }) sent p
  SendOk-tail r sent k (SendPc.wait t v) h = h
  SendOk-tail r sent k (SendPc.check t v) h = h
  SendOk-tail r sent k (SendPc.copy t v) h = h
  SendOk-tail r sent k (SendPc.publish t v) h = h
  SendOk-tail r sent k _ h = tt

module _ {A : Type 0} (s : System A) where
  abbrev pub before : RecvPc A → System A
  before p = record s { receiver = p }

  abbrev pub moved : RecvPc A → System A
  moved p =
      let (q, r) = mpsc_recv p s.ring in record s { ring = r; receiver = q; got = log_got p s.got }

module _ {A : Type 0} {cap n : ℕ} (s : System A) (two : 2 ≤ cap)
    (small : n + cap + 1 < 2 ^ 64) where
  -- The receiver finds the slot full, and to the senders it draws its ticket.
  draws :
      (t : ℕ)
      → Ordered cap n (before s (RecvPc.test t))
      → (slot_of s.ring t).seq ≡ suc t
      → Ordered cap (suc n) (before s (RecvPc.copy t))
  draws t h e = record {
    inv = record {
      sized = h.inv.sized;
      logged = h.inv.logged;
      head_le = omega (arith, h.inv.head_le);
      tail_le = omega (arith, h.inv.tail_le);
      full = h.inv.full;
      send_ok = λ j.
          SendOk-tail (show (before s (RecvPc.test t))).ring s.sent (suc s.ring.tail) (s.senders j)
            (h.inv.send_ok j);
      recv_ok = λ j.
          at_first-RecvOk (show (before s (RecvPc.copy t))).ring s.sent (Channel.RecvPc.copy t) j
            (omega (arith, h.knows), e);
      send_unique = h.inv.send_unique;
      recv_unique = at_first_unique (Channel.RecvPc.copy t);
    };
    count = h.count;
    in_order = h.in_order;
    knows = h.knows;
  }

  copies :
      (t : ℕ)
      → Ordered cap n (before s (RecvPc.copy t))
      → Ordered cap (suc n) (before s (RecvPc.release t (slot_of s.ring t).elem))
  copies t h = record {
    inv = record {
      sized = h.inv.sized;
      logged = h.inv.logged;
      head_le = omega (arith, h.inv.head_le);
      tail_le = omega (arith, h.inv.tail_le);
      full = h.inv.full;
      send_ok = h.inv.send_ok;
      recv_ok = λ j. at_first-RecvOk (show (before s now)).ring s.sent (shown now) j (
        (h.inv.recv_ok 0).0,
        (h.inv.recv_ok 0).1,
        (h.inv.full t (h.inv.recv_ok 0).1).0,
        (h.inv.full t (h.inv.recv_ok 0).1).1,
      );
      send_unique = h.inv.send_unique;
      recv_unique = at_first_unique (shown now);
    };
    count = h.count;
    in_order = h.in_order;
    knows = h.knows;
  }
    where
      now : RecvPc A
      now = RecvPc.release t (slot_of s.ring t).elem

  releases :
      (t : ℕ) (out : Option A)
      → Ordered cap n (before s (RecvPc.release t out))
      → Ordered cap (suc n) (moved s (RecvPc.release t out))
  unfolding mpsc_recv recv_step
  releases t out h = record {
    inv = record {
      sized = h.inv.sized;
      logged = h.inv.logged;
      head_le = omega (arith, h.inv.head_le);
      tail_le = omega (arith, h.inv.tail_le);
      full = receiver_full h.inv two small 0 p (h.inv.recv_ok 0);
      send_ok =
          λ j. beside_sender h.inv two small 0 p (s.senders j) (h.inv.recv_ok 0) (h.inv.send_ok j);
      recv_ok = λ j.
          at_first-RecvOk (show (moved s (RecvPc.release t out))).ring s.sent
            (shown (RecvPc.advance out)) j tt;
      send_unique = h.inv.send_unique;
      recv_unique = at_first_unique (shown (RecvPc.advance out));
    };
    count = h.count;
    in_order = h.in_order;
    knows = (found.0, (h.inv.recv_ok 0).3 ∙ found.1, ap (get_elem? s.sent) (sym h.knows) ∙ found.1);
  }
    where
      found : (x : A) × (get_elem? s.sent t ≡ some x)
      found = get_elem?-of_lt s.sent t (omega (arith, (h.inv.recv_ok 0).2, h.inv.logged))

      p : Channel.RecvPc A
      p = Channel.RecvPc.release t out

  advances :
      (out : Option A)
      → Ordered cap n (before s (RecvPc.advance out))
      → Ordered cap (suc n) (moved s (RecvPc.advance out))
  unfolding mpsc_recv
  advances out h = record {
    inv = rw next (later h.inv);
    count = omega (arith, length-append s.got (out ∷ []), h.count, next);
    in_order =
        rw h.knows.1
          (Received-snoc s.got s.sent h.in_order (ap (get_elem? s.sent) h.count ∙ h.knows.2));
    knows = tt;
  }
    where
      next : add_size s.ring.tail 1 ≡ suc s.ring.tail
      next = omega (arith, h.inv.tail_le)

  -- A step that touches nothing.
  pub looks :
      (p q : RecvPc A)
      → shown p ≡ shown q
      → shown_tail p s.ring.tail ≡ shown_tail q s.ring.tail
      → Knows s.ring.tail s.sent q
      → Ordered cap n (before s p)
      → Ordered cap (suc n) (before s q)
  looks p q same same_tail knows h = record {
    inv = rw (← same, ← same_tail) (later h.inv);
    count = h.count;
    in_order = h.in_order;
    knows = knows;
  }

  pub receiver-Ordered :
      (p : RecvPc A) → Ordered cap n (before s p) → Ordered cap (suc n) (moved s p)
  unfolding mpsc_recv
  receiver-Ordered RecvPc.load_tail h = looks _ _ refl refl refl h
  receiver-Ordered (RecvPc.load_head t) h = elim (Bool-cases (t == s.ring.head)) [
    | inl e ↦ rw e (looks (RecvPc.load_head t) (RecvPc.returned _ none) refl refl tt h)
    | inr e ↦
        rw (e, ne→== s.ring.capacity 0 (omega (arith, h.inv.sized)))
          (looks (RecvPc.load_head t) (RecvPc.test t) refl refl h.knows h)
  ]
  receiver-Ordered (RecvPc.test t) h = elim (Bool-cases ((slot_of s.ring t).seq == add_size t 1)) [
    | inl e ↦ rw e (draws t h (ground (arith, e, h.knows, h.inv.tail_le)))
    | inr e ↦ rw e (looks (RecvPc.test t) (RecvPc.returned _ none) refl refl tt h)
  ]
  receiver-Ordered (RecvPc.copy t) h = copies t h
  receiver-Ordered (RecvPc.release t out) h = releases t out h
  receiver-Ordered (RecvPc.advance out) h = advances out h
  receiver-Ordered (RecvPc.returned c out) h =
      looks (RecvPc.returned c out) (RecvPc.returned c out) refl refl tt h
  receiver-Ordered RecvPc.trapped h = looks RecvPc.trapped RecvPc.trapped refl refl tt h
