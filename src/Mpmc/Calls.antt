-- ===== src/Mpmc/Calls.antt =====
-- New calls on handles at rest, and the closing, keep the invariant of an MPMC channel.
use mathlib.Core.Logic.{if_pos, if_neg}
use seakcutils.Base.{ℕ, suc, ◌≡◌, refl, Option, none, some, arith, ℕ_discrete, Bool, true, false}
use seakcutils.Channel.{Ring, SendPc, RecvPc, closed}
use seakcutils.Mpmc.{System, update, happen, close, mpmc_send_call, mpmc_recv_call}
use seakcutils.Mpmc.Invariant.{Delivered, Inv, SendOk, RecvOk, send_ticket, recv_ticket}

module _ {A : Type 0} {cap n : ℕ} {s : System A} (v : Inv cap n s) where
  open v use {sized, logged, head_le, tail_le, full, send_ok, recv_ok, send_unique, recv_unique}

  pub call-SendOk : (null : Bool) (x : A) → SendOk s.ring s.sent (mpmc_send_call null x)
  call-SendOk true x = tt
  call-SendOk false x = tt

  pub call_send_ticket : (null : Bool) (x : A) → send_ticket (mpmc_send_call null x) ≡ none
  call_send_ticket true x = refl
  call_send_ticket false x = refl

  pub call-RecvOk : (h : Option _) → RecvOk s.ring s.sent (mpmc_recv_call h)
  call-RecvOk none = tt
  call-RecvOk (some st) = tt

  pub call_recv_ticket : (h : Option _) → recv_ticket (mpmc_recv_call {A = A} h) ≡ none
  call_recv_ticket none = refl
  call_recv_ticket (some st) = refl

  pub later : Inv cap (suc n) s
  later = record {
    sized = sized;
    logged = logged;
    head_le = omega arith;
    tail_le = omega arith;
    full = full;
    send_ok = send_ok;
    recv_ok = recv_ok;
    send_unique = send_unique;
    recv_unique = recv_unique;
  }

  pub send-Inv :
      (i : ℕ) (o : SendPc A)
      → SendOk s.ring s.sent o
      → send_ticket o ≡ none
      → Inv cap (suc n) (record s { senders = update s.senders i o })
  send-Inv i o good fresh = record {
    sized = sized;
    logged = logged;
    head_le = omega arith;
    tail_le = omega arith;
    full = full;
    send_ok = λ j. elim (ℕ_discrete i j) [
      | yes e ↦ rw (if_pos (ℕ_discrete i j) e) good
      | no ne ↦ rw (if_neg (ℕ_discrete i j) ne) (send_ok j)
    ];
    recv_ok = recv_ok;
    send_unique = λ a b t qa qb. ground (arith, send_unique a b t);
    recv_unique = recv_unique;
  }

  pub recv-Inv :
      (i : ℕ) (o : RecvPc A)
      → RecvOk s.ring s.sent o
      → recv_ticket o ≡ none
      → Inv cap (suc n) (record s { receivers = update s.receivers i o })
  recv-Inv i o good fresh = record {
    sized = sized;
    logged = logged;
    head_le = omega arith;
    tail_le = omega arith;
    full = full;
    send_ok = send_ok;
    recv_ok = λ j. elim (ℕ_discrete i j) [
      | yes e ↦ rw (if_pos (ℕ_discrete i j) e) good
      | no ne ↦ rw (if_neg (ℕ_discrete i j) ne) (recv_ok j)
    ];
    send_unique = send_unique;
    recv_unique = λ a b t qa qb. ground (arith, recv_unique a b t);
  }

  pub close-Inv : Inv cap (suc n) (happen close s)
  unfolding happen
  close-Inv = record {
    sized = sized;
    logged = logged;
    head_le = omega arith;
    tail_le = omega arith;
    full = full;
    send_ok = λ j. close_send_ok (s.senders j) (send_ok j);
    recv_ok = λ j. close_recv_ok (s.receivers j) (recv_ok j);
    send_unique = send_unique;
    recv_unique = recv_unique;
  }
    where
      shut : Ring A
      shut = record s.ring { state = closed }

      close_send_ok : (o : SendPc A) → SendOk s.ring s.sent o → SendOk shut s.sent o
      close_send_ok (SendPc.start x) h = tt
      close_send_ok (SendPc.wait t x) h = h
      close_send_ok (SendPc.check t x) h = h
      close_send_ok (SendPc.copy t x) h = h
      close_send_ok (SendPc.publish t x) h = h
      close_send_ok _ h = tt

      close_recv_ok : (o : RecvPc A) → RecvOk s.ring s.sent o → RecvOk shut s.sent o
      close_recv_ok (RecvPc.start st) h = tt
      close_recv_ok (RecvPc.wait t) h = h
      close_recv_ok (RecvPc.check t) h = h
      close_recv_ok (RecvPc.copy t) h = h
      close_recv_ok (RecvPc.release t out) h = h
      close_recv_ok _ h = tt

  pub recv-Delivered :
      Delivered s
      → (i : ℕ) (o : RecvPc A) → recv_ticket o ≡ none
      → Delivered (record s { receivers = update s.receivers i o })
  recv-Delivered d i o fresh = record {
    valid = d.valid;
    apart = d.apart;
    held = λ j t q. elim (ℕ_discrete i j) [
      | yes e ↦ absurd (ground arith)
      | no ne ↦ d.held j t (rw (if_neg (ℕ_discrete i j) ne) at q)
    ];
  }
