-- ===== src/Socket/Reads.antt =====
-- skynet-src/socket_server.c: what `forward_message_tcp` hands on, and the size of the next read.
use native.Mathlib.Nat.{one-le-pow, pow-le-pow_right}
use ctkjserver.Base.{
  ℕ, zero, suc, ◌-◌, ◌*◌, ◌/◌, ◌^◌, ◌≤◌, ◌<◌, ◌≡◌, ◌≢◌, refl, sym, ap, subst, ◌∙◌, lt→ltb, le→ltb,
  eq→==, Bool, true, false, ◌&&◌, some, List, [], length, take, length-take, ltb, ◌==◌, ne→==,
  if_true, if_false, arith,
}
use ctkjserver.Base.Bits.{shift_more}
use ctkjserver.Socket.{Socket, WriteReply, ResultType, is_halfclose}
use ctkjserver.Socket.Receive.{
  ReadReply, Forward, min_read_buffer, next_size, forward_bytes, forward_message_tcp,
}

-- A size that a read buffer can have: `min_read_buffer`, doubled some times.
abbrev pub doubled : ℕ → ℕ
doubled k = min_read_buffer * 2 ^ k

both : {a b : Bool} → a ≡ true → b ≡ true → (a && b) ≡ true
both p q = rw (p, q) refl

not_both : (a : Bool) {b : Bool} → b ≡ false → (a && b) ≡ false
not_both true q = q
not_both false q = refl

positive : (k : ℕ) → 0 < doubled k
positive k = omega (arith, one-le-pow k 2)

twice : (k : ℕ) → doubled (suc k) ≡ doubled k * 2
twice k = shift_more k min_read_buffer

-- The size stays an `int` when it is doubled once more.
fits : (k : ℕ) → k < 24 → doubled k * 2 < 2 ^ 31
fits k l = omega (arith, pow-le-pow_right {n = 2} (omega arith) {i = k} {j = 23} (omega (arith, l)))

-- The sizes after a full read, after one of less than half, and after any other.
pub record Sizes (k n size : ℕ) : Type 0 where
  pub full : n ≡ doubled k → size ≡ doubled (suc k)
  pub low : n * 2 < doubled k → size ≡ doubled (k - 1)
  pub between : n ≢ doubled k → doubled k ≤ n * 2 → size ≡ doubled k

halved : (n : ℕ) → n * 2 / 2 ≡ n
halved n = omega arith

low_size : (k n : ℕ) → n * 2 < doubled k → next_size (doubled k) n ≡ doubled (k - 1)
low_size zero n l = if_false _ _ (ne→== n 64 (omega (arith, l))) ∙ refl
low_size (suc k) n l =
    if_false _ _ (ne→== n (doubled (suc k)) (λ e. absurd (omega (arith, e, l, positive (suc k)))))
    ∙ if_true _ _ (
        both (lt→ltb min_read_buffer (doubled (suc k)) (omega (arith, twice k, one-le-pow k 2)))
          (lt→ltb (n * 2) (doubled (suc k)) l))
    ∙ ap (λ x. x / 2) {x = doubled (suc k)} {y = doubled k * 2} (twice k)
    ∙ halved (doubled k)
    ∙ ap doubled {x = k} {y = suc k - 1} (omega arith)

next_size-Sizes : (k n : ℕ) → k < 24 → Sizes k n (next_size (doubled k) n)
next_size-Sizes k n l = record {
  full = λ e. if_true _ _ (eq→== _ _ e) ∙ omega (arith, fits k l, twice k);
  low = low_size k n;
  between = λ ne le.
      if_false _ _ (ne→== _ _ ne)
      ∙ if_false _ _ (not_both (ltb min_read_buffer (doubled k)) (le→ltb (n * 2) (doubled k) le));
}

-- A connection that is not half-closed, with a buffer of `min_read_buffer`, doubled `k` times, less
-- than 24: `read` gives what there is, up to the size of the buffer, and these bytes are handed on.
-- The size of the next read is twice as much after a full read, half as much, but no less than
-- `min_read_buffer`, when less than half was read, and the same otherwise.
pub forward_message_tcp_lem :
    (s : Socket) (bytes : List ℕ) (replies : List WriteReply) (k : ℕ)
    → is_halfclose s.kind ≡ false
    → s.size ≡ doubled k
    → k < 24
    → 0 < length bytes
    → (f : Forward) × (forward_message_tcp s (ReadReply.received bytes) replies ≡ some f)
      × (f.step.result ≡ ResultType.got_data)
      × (f.step.effects ≡ [])
      × (f.data_of ≡ take s.size bytes)
      × Sizes k (length f.data_of) f.step.socket.size
unfolding forward_message_tcp forward_bytes
forward_message_tcp_lem s bytes replies k up size low some_bytes =
    let got = take s.size bytes in
    let got_some : (length got == 0) ≡ false =
      ne→== (length got) 0
        (λ e. absurd (omega (arith, length-take s.size bytes, positive k, size, some_bytes, e))) in
    (
      record {
        step = record {
          result = ResultType.got_data;
          socket = record s { size = next_size s.size (length got) };
          effects = [];
          replies = replies;
        };
        data_of = got;
      },
      if_false _ _ got_some ∙ ap some (if_false _ _ up),
      refl,
      refl,
      refl,
      subst (λ z. Sizes k (length got) (next_size z (length got))) (sym size)
          (next_size-Sizes k (length got) low),
    )
