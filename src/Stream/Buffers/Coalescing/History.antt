-- ===== src/Stream/Buffers/Coalescing/History.antt =====
-- What holds of a `CoalescingBuffer` after any calls.
use graph_core.Base.{ℕ, ◌≤◌, ◌≡◌, refl, inl, inr, List, [], ◌∷◌, length, length-append, arith}
use graph_core.Base.Results.{ok}
use graph_core.Stream.Buffers.{pop_front_cases}
use graph_core.Stream.Buffers.Trace.{Call, pushes, pops}
use graph_core.Stream.Buffers.Coalescing.{Eq, KeyedStreamItem, CoalescingBuffer, new, pop, try_push}
use graph_core.Stream.Buffers.Coalescing.Laws.{
  IsDistinct, IsBounded, others, IsDistinct-others, try_push_lem,
}

module _ {ℓ} {K T : Type ℓ} ⦃e : Eq K⦄ where
  pub run : CoalescingBuffer K T → List (Call (KeyedStreamItem K T)) → CoalescingBuffer K T
  run b [] = b
  run b (pushes item ∷ cs) = run (try_push b item).0 cs
  run b (pops ∷ cs) = run (pop b).0 cs

  try_push-IsBounded :
      (n : ℕ) (b : CoalescingBuffer K T) (item : KeyedStreamItem K T)
      → b.capacity ≡ n
      → IsBounded b.capacity b
      → IsBounded n (try_push b item).0
  try_push-IsBounded n b item c i = elim (try_push_lem b item i) [
    | inl (p, room) ↦ rw p (record {
      same_capacity = c;
      bounded = omega (arith, length-append (others item b.items) (item ∷ []));
      distinct = IsDistinct-others item b.items i.distinct;
    })
    | inr (p, _, _) ↦
        rw p
          (record { same_capacity = c; bounded = omega (arith, i.bounded); distinct = i.distinct })
  ]

  pop-IsBounded : (n : ℕ) (b : CoalescingBuffer K T) → IsBounded n b → IsBounded n (pop b).0
  unfolding pop
  pop-IsBounded n b i = elim (pop_front_cases b.items) [
    | inl (p, q) ↦ record {
      same_capacity = i.same_capacity;
      bounded = ground (arith, q);
      distinct = rw q tt;
    }
    | inr (x, xs, p, q) ↦ record {
      same_capacity = i.same_capacity;
      bounded = ground (arith, p, q, i.bounded);
      distinct = rw q ((rw p at i.distinct).1);
    }
  ]

  run-IsBounded :
      (n : ℕ) (b : CoalescingBuffer K T) (cs : List (Call (KeyedStreamItem K T)))
      → IsBounded n b
      → IsBounded n (run b cs)
  unfolding run
  run-IsBounded n b [] i = i
  run-IsBounded n b (pushes item ∷ cs) i = run-IsBounded n (try_push b item).0 cs (
      try_push-IsBounded n b item i.same_capacity (record {
        same_capacity = refl;
        bounded = omega (arith, i.bounded);
        distinct = i.distinct;
      }))
  run-IsBounded n b (pops ∷ cs) i = run-IsBounded n (pop b).0 cs (pop-IsBounded n b i)

  -- Whatever the client pushes and pops, no more items are pending than the capacity that `new` was
  -- given, and no two of them have the same stream and key.
  pub coalescing_bounded :
      (capacity : ℕ) (b : CoalescingBuffer K T) (cs : List (Call (KeyedStreamItem K T)))
      → new capacity ≡ ok b
      → (length (run b cs).items ≤ capacity) × IsDistinct (run b cs).items
  unfolding new
  coalescing_bounded capacity b cs h =
      let empty : b.items ≡ [] = ground arith in
      let i =
        run-IsBounded capacity b cs (record {
          same_capacity = ground arith;
          bounded = ground arith;
          distinct = rw empty tt;
        }) in
      (i.bounded, i.distinct)
