-- ===== src/Deque/Represents.antt =====
-- When a `Deque` of data_structures/deque.h stands for a list, from the back element to the front.
use seakcutils.Base.{
  ◌+◌, ◌^◌, ◌≤◌, ◌<◌, ◌≡◌, some, List, done, arith, length, pos_part, neg_part, ◌==◌,
}
use seakcutils.Deque.{Deque, deque_size, deque_is_full, deque_is_empty}
use seakcutils.Deque.Place.{place}
use seakcutils.Window.{Holds}

module _ {ℓ} {A : Type ℓ} where
  -- The buffer holds the elements of `xs` from the place of `tail` on, and `head` is as far ahead
  -- of `tail` as there are elements.
  pub record Represents (q : Deque A) (xs : List A) : Type ℓ where
    pub buf : List A
    pub allocated : q.items ≡ some buf
    pub size : length buf ≡ q.cap
    pub small : q.cap < 2 ^ 63
    pub room : length xs ≤ q.cap
    pub span : pos_part q.head + neg_part q.tail ≡ pos_part q.tail + neg_part q.head + length xs
    pub window : Holds buf q.cap (place q.tail q.cap) xs

  module _ {q : Deque A} {xs : List A} (r : Represents q xs) where
    pub deque_size_lem : deque_size q ≡ done (length xs)
    unfolding deque_size
    deque_size_lem = let span = r.span in let room = r.room in let small = r.small in ground arith

    pub deque_is_full_lem : deque_is_full q ≡ done (length xs == q.cap)
    unfolding deque_is_full
    deque_is_full_lem = rw deque_size_lem

    pub deque_is_empty_lem : deque_is_empty q ≡ (length xs == 0)
    unfolding deque_is_empty
    deque_is_empty_lem = let span = r.span in ground arith
