-- ===== src/Tests/Async.antt =====
-- An asynchronous write of three bytes in two transfers, and a read, on a libusb whose outside world is
-- the length of the last transfer; and a write that is waited for, on one that completes the transfer in
-- flight.
use libsgftdi.Base.{
  zero, suc, ℤ, Option, none, ◌⊎◌, is_negative, minus, false, ◌<◌, inl, inr, ℕ, ◌≡◌, ◌≤◌, refl, [],
  ◌++◌, List, pos, some, true, arith,
}
use libsgftdi.Context.{Context}
use libsgftdi.Read.{slice}
use libsgftdi.Read.Payload.{payload}
use libsgftdi.Read.Transfer.{unread}
use libsgftdi.Async.Transfer.{AsyncUsb, Completion, TransferControl, resubmit, begin}
use libsgftdi.Async.Write.{write_submit, write_data_cb, first_transfer, first_control}
use libsgftdi.Async.Read.{read_submit, read_more, read_data_cb, first_read, begun_with}
use libsgftdi.Async.Wait.{Waiting, transfer_data_done}
use libsgftdi.Async.Sent.{Completions, taken, ended, write_submit-Completions}
use libsgftdi.Async.Received.{handed}
use libsgftdi.Async.Reads.{Receptions, received, idle, read_submit-Receptions}
use libsgftdi.Async.Pending.{IsServing}
use libsgftdi.Async.Finish.{write_submit-transfer_data_done}
use libsgftdi.Tests.Bench.{bench, opened}

abbrev serving : AsyncUsb ℕ
serving = record {
  alloc_transfer = λ w. (true, w);
  submit_transfer = λ t w. (pos 0, t.length);
  cancel_transfer = λ t w. w;
  free_transfer = λ t w. w;
  handle_events =
      λ ctx w. (pos 0, some (record { status = 0; actual_length = w; received = λ k. k }), w);
}

-- A libusb with at most one transfer in flight: the outside world is 0 if there is none, and else one
-- more than its length. A call for events completes it.
abbrev in_flight : ℕ → Option ℕ
in_flight zero = none
in_flight (suc n) = some n

abbrev events : ℕ → ℤ × Option Completion × ℕ
events zero = (pos 0, none, 0)
events (suc n) = (pos 0, some (record { status = 0; actual_length = n; received = λ k. k }), 0)

abbrev single : AsyncUsb ℕ
single = record {
  alloc_transfer = λ w. (true, w);
  submit_transfer = λ t w. (pos 0, suc t.length);
  cancel_transfer = λ t w. 0;
  free_transfer = λ t w. w;
  handle_events = λ ctx w. events w;
}

same_length : (a b : ℕ) → Path (Option ℕ) (some a) (some b) → a ≡ b
same_length a b h = cc

no_length : (n : ℕ) → Path (Option ℕ) none (some n) → ⊥
no_length n h = cc

single-IsServing : IsServing single in_flight (λ w. 0)
single-IsServing = record { accepted = λ t w. (refl, refl); served = λ ctx. serve }
  where
    serve :
        (w n : ℕ)
        → in_flight w ≡ some n
        → let (ret, completion, w') = events w in
          ((is_negative ret ≡ false) ⊎ (ret ≡ minus 10))
          × (((completion ≡ none) × (in_flight w' ≡ in_flight w) × (0 < 0))
              ⊎ ((e : Completion) × (completion ≡ some e)
                  × (e.status ≡ 0)
                  × (e.actual_length ≤ n)
                  × (0 < n → 0 < e.actual_length)))
    serve zero n h = absurd (no_length n h)
    serve (suc m) n h =
        let same = same_length m n h in
        (inl refl, inr (_, refl, refl, omega (arith, same), λ lo. omega (arith, same, lo)))

abbrev text : ℕ → ℕ
text k = 65

abbrev control : TransferControl
control = record (first_control text 3) { transfer = some (first_transfer opened 5 3) }

begun : (write_submit serving bench 64 opened 5 text 3 1).0 ≡ some control
unfolding write_submit begin
begun = refl

single_begun : (write_submit single bench 64 opened 5 text 3 0).0 ≡ some control
unfolding write_submit begin
single_begun = refl

write_submit-transfer_data_done_example :
    let s : Waiting ℕ = record {
      control = control;
      context = opened;
      world = (write_submit single bench 64 opened 5 text 3 0).1;
    } in
    (fuel : ℕ) × (w' : ℕ) × (transfer_data_done single fuel s ≡ some (pos 3, opened, w'))
write_submit-transfer_data_done_example =
    write_submit-transfer_data_done single in_flight (λ w. 0) single-IsServing bench 64 opened 5
      text 3 0 (omega arith) (omega arith) control single_begun

abbrev moved : ℕ → Completion
moved n = record { status = 0; actual_length = n; received = λ k. k }

abbrev after_two : TransferControl
after_two = (write_data_cb serving opened (moved 2) (first_transfer opened 5 3) control 1).0

two_bytes : Completions serving opened control 1 (slice text 0 2 ++ []) after_two 1
unfolding write_data_cb resubmit
two_bytes = taken control 1 1 (moved 2) (first_transfer opened 5 3) refl refl (omega arith) ended

write_submit-Completions_example :
    (slice text 0 2 ++ [] ≡ slice text 0 after_two.offset) × (after_two.offset ≤ 3)
write_submit-Completions_example =
    write_submit-Completions serving bench 64 opened 5 text 3 1 control (omega arith) begun 1
      two_bytes

abbrev reading : TransferControl
reading = record (begun_with opened text 2) { transfer = some (first_read opened 5) }

read_begun : (read_submit serving bench 64 opened 5 text 2 1).0 ≡ some reading
unfolding read_submit read_more begin
read_begun = refl

abbrev context : Context
context = (read_submit serving bench 64 opened 5 text 2 1).1

abbrev packet : List ℕ
packet = payload context.max_packet_size (slice (λ k. k) 0 4)

abbrev read_control : TransferControl
read_control = (read_data_cb serving context (moved 4) (first_read opened 5) reading 1).0

abbrev read_context : Context
read_context = (read_data_cb serving context (moved 4) (first_read opened 5) reading 1).1

one_packet : Receptions serving reading context (packet ++ []) read_control read_context
one_packet = received reading context 1 (moved 4) (first_read opened 5) refl refl idle

read_submit-Receptions_example :
    (handed read_control ++ unread read_context ≡ unread opened ++ (packet ++ []))
    × (read_control.offset ≤ 2)
read_submit-Receptions_example =
    read_submit-Receptions serving bench 64 opened 5 text 2 1 (omega arith) reading read_begun
      one_packet
