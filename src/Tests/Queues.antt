-- ===== src/Tests/Queues.antt =====
-- queue.c: two bytes are pushed and written.
use libreactorng.Prelude.{ℕ, ◌≡◌, refl, arith, none, List, [], ◌∷◌, ◌++◌}
use libreactorng.Queues
use libreactorng.Queues.{Producer}
use libreactorng.Queues.Order.{IsProducer, waiting}
use libreactorng.Queues.Runs.{Run, opened, pushed, written, order_lem}

abbrev one_element : List ℕ
one_element = b'h' ∷ b'i' ∷ []

abbrev behind_write : Producer
behind_write = record {
  element_size = 2;
  output = [];
  output_offset = 0;
  output_queued = [];
  write = none;
}

two_bytes : Run 2 one_element one_element behind_write
unfolding Queues.construct Queues.push Queues.update Queues.refill Queues.next_slice Queues.on_write
two_bytes =
    written one_element 2 (pushed one_element opened (omega arith)) refl (omega arith) (omega arith)
      refl

order_lem_example :
    IsProducer behind_write
    × (one_element ≡ one_element ++ waiting behind_write)
    × (behind_write.write ≡ none → one_element ≡ one_element)
order_lem_example =
    order_lem 2 one_element one_element behind_write (omega arith) (omega arith) two_bytes
