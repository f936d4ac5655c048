-- ===== src/Netpack/Tests.antt =====
-- Runs of the package filter on concrete chunks, and the theorems at them.
use ctkjserver.Base.{ℕ, ◌<◌, ◌≡◌, refl, Option, none, some, List, [], ◌∷◌, map, All, length, arith}
use ctkjserver.Base.Window.{copy_round}
use ctkjserver.Netpack.{
  Pack, Queue, lpack, lpop, hash_fd, find_uncomplete, link_uncomplete, unlink, save_header,
  save_part, push_data, push_more, expand_queue,
}
use ctkjserver.Netpack.Filter.{filter_data, fill, continue_uncomplete, start_package}
use ctkjserver.Netpack.Table.{pack_of}
use ctkjserver.Netpack.State.{new_queue-Holds}
use ctkjserver.Netpack.Reassemble.{Filtered}
use ctkjserver.Netpack.Stream.{filter_data-Filtered}
use ctkjserver.Netpack.Session.{feed}
use ctkjserver.Netpack.Delivery.{Fed, feed-Fed, lpack-feed, of_connection, dispatched}

-- "ab" and "" of connection 5, and "c" of connection 6, cut inside the size and inside the text.
abbrev chunks : List (ℕ × List ℕ)
chunks =
    (5, 0 ∷ [])
    ∷ (6, 0 ∷ 1 ∷ [])
    ∷ (5, 2 ∷ b'a' ∷ [])
    ∷ (5, b'b' ∷ 0 ∷ 0 ∷ [])
    ∷ (6, b'c' ∷ [])
    ∷ []

abbrev expected : List (Option Pack)
expected =
    some (pack_of 5 (b'a' ∷ b'b' ∷ [])) ∷ some (pack_of 5 []) ∷ some (pack_of 6 (b'c' ∷ [])) ∷ []

-- The packages of a run.
abbrev outputs : Option (List (Option Pack) × Option Queue) → List (Option Pack)
outputs none = []
outputs (some (out, q)) = out

feed-chunks : outputs (feed none chunks) ≡ expected
unfolding feed filter_data hash_fd find_uncomplete link_uncomplete unlink save_header save_part
    push_data push_more expand_queue fill continue_uncomplete start_package lpop copy_round
feed-chunks = refl

lpack_refuses : (lpack (1 ∷ 2 ∷ []) ≡ some (0 ∷ 2 ∷ 1 ∷ 2 ∷ []))
unfolding lpack
lpack_refuses = refl

chunks-nonempty : All (λ m. 0 < length m.1) chunks
chunks-nonempty = omega arith

filter_data-Filtered_example : Filtered 5 (0 ∷ []) [] (λ _. []) (filter_data none 5 (0 ∷ []))
filter_data-Filtered_example =
    filter_data-Filtered none [] (λ _. []) 5 (0 ∷ []) new_queue-Holds (omega arith)

feed-Fed_example : Fed (λ _. []) chunks (feed none chunks)
feed-Fed_example = feed-Fed chunks none (λ _. []) new_queue-Holds chunks-nonempty

lpack-feed_example :
    (queue : Option Queue) × (out : List (ℕ × List ℕ)) × (feed none chunks
      ≡ some (map dispatched out, queue))
    × (of_connection 5 out ≡ (b'a' ∷ b'b' ∷ []) ∷ [] ∷ [])
unfolding lpack
lpack-feed_example =
    lpack-feed chunks 5 ((b'a' ∷ b'b' ∷ []) ∷ [] ∷ []) chunks-nonempty
      (0 ∷ 2 ∷ b'a' ∷ b'b' ∷ [], 0 ∷ 0 ∷ [], refl, refl, (0 ∷ 0 ∷ [], [], refl, refl, refl))
