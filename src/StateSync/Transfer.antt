-- ===== src/StateSync/Transfer.antt =====
-- When the transfers of src/core/auth_gateway/state_sync.c succeed.
use ps.Base.{
  ℕ, ◌<◌, ◌≡◌, refl, ap, ◌∙◌, ◌≢◌, ◌↔◌, ◌⊎◌, inl, inr, Bool, true, false, not, ◌||◌, Option, none,
  some, arith, ltb, ◌==◌, Bool-cases, Status, success,
}
use ps.Auth.{Dial}
use ps.StateSync.{
  StateSync, Header, sent_packet, send_connected, state_send_update, state_receive_update,
  receive_connected, state_sync_ensure_connected, state_sync_is_connected,
}

-- Ensuring a connection succeeds exactly if the synchronisation counts as connected afterwards. It
-- changes nothing but the socket; a failure leaves no new socket behind.
pub ensure_connected_outcome :
    (dial : Dial) (s : StateSync)
    → let r = state_sync_ensure_connected dial s in
      ((r.0 ≡ success) ↔ (state_sync_is_connected r.1 ≡ true))
      × (r.1 ≡ record s { socket = r.1.socket })
      × ((r.0 ≡ success) ⊎ (r.1.socket ≡ none) ⊎ (r.1.socket ≡ s.socket))
unfolding state_sync_ensure_connected state_sync_is_connected
ensure_connected_outcome dial s = (ground arith, ground arith, ground arith)

sent_packet_cases :
    (sequence size : ℕ) (sent : Option ℕ) (s : StateSync)
    → 0 < size
    → (((sent_packet sequence size sent s).0 ≡ success) ↔ ((sent ≡ none) × (size ≡ 7)))
      × (((sent_packet sequence size sent s).0 ≡ success)
          ⊎ ((sent_packet sequence size sent s).1 ≡ s))
unfolding sent_packet
sent_packet_cases sequence size none s h =
    ((λ e. (refl, ground arith), λ (e, k). ground arith), ground arith)
sent_packet_cases sequence size (some n) s h = ((λ e. ground arith, λ (e, k). cc), ground arith)

send_connected_cases :
    (o : Status × StateSync) (sequence size : ℕ) (alloc : Bool) (sent : Option ℕ)
    → 0 < size
    → let r = send_connected o sequence size alloc sent in
      ((r.0 ≡ success) ↔ ((o.0 ≡ success) × (alloc ≡ true) × (sent ≡ none) × (size ≡ 7)))
      × ((r.0 ≡ success) ⊎ (r.1 ≡ o.1))
unfolding send_connected
send_connected_cases (success, s) sequence size true sent h =
    let c = sent_packet_cases sequence size sent s h in
    ((λ e. (refl, refl, (c.0.0 e).0, (c.0.0 e).1), λ e. c.0.1 (e.2, e.3)), c.1)
send_connected_cases (success, s) sequence size false sent h = ((λ e. cc, λ e. cc), inr refl)
send_connected_cases (_, s) sequence size alloc sent h = ((λ e. cc, λ e. cc), inr refl)

-- Sending reports a success in one case only: the arguments are valid, the connection stands, memory
-- was given, the data have seven bytes, and the system call send() failed. So no update that was in
-- fact sent is reported as sent, and a failed call on seven bytes is. In every other case the sequence
-- number of the last sent update stays as it was.
pub state_send_update_success :
    (sequence : ℕ) (has_data : Bool) (size : ℕ) (dial : Dial) (alloc : Bool) (sent : Option ℕ)
    (s : StateSync)
    → let r = state_send_update sequence has_data size dial alloc sent s in
      ((r.0 ≡ success) ↔ (
        (has_data ≡ true)
        × ((state_sync_ensure_connected dial s).0 ≡ success)
        × (alloc ≡ true)
        × (sent ≡ none)
        × (size ≡ 7)))
      × ((r.0 ≡ success) ⊎ (r.1.last_sent_sequence ≡ s.last_sent_sequence))
unfolding state_send_update
state_send_update_success sequence has_data size dial alloc sent s =
    elim (Bool-cases (not has_data || size == 0 || ltb 65535 size)) [
      | inl e ↦ rw e ((λ q. cc, λ q. ground arith), inr refl)
      | inr e ↦
          let c =
            send_connected_cases (state_sync_ensure_connected dial s) sequence size alloc sent
              (ground arith) in
          let kept = (ensure_connected_outcome dial s).1 in
          rw e (
            (
              λ q. (ground arith, (c.0.0 q).0, (c.0.0 q).1, (c.0.0 q).2, (c.0.0 q).3),
              λ q. c.0.1 (q.1, q.2, q.3, q.4),
            ),
            elim c.1 [
              | inl q ↦ inl q
              | inr q ↦ inr (ap (λ t. t.last_sent_sequence) q ∙ ap (λ t. t.last_sent_sequence) kept)
            ],
          )
    ]

receive_connected_cases :
    (o : Status × StateSync) (h : Header) (room : ℕ) (first second : Option ℕ)
    → let r = receive_connected o h room first second in
      (r.status ≢ success) × (r.sequence ≡ none) × (r.data_size ≡ none) × (r.state ≡ o.1)
unfolding receive_connected
receive_connected_cases (success, s) h room none second = (λ e. cc, refl, refl, refl)
receive_connected_cases (success, s) h room (some n) second = elim (Bool-cases (n == 0)) [
  | inl e ↦ rw e (λ q. cc, refl, refl, refl)
  | inr e ↦ rw e (λ q. cc, refl, refl, refl)
]
receive_connected_cases (_, s) h room first second = (λ e. cc, refl, refl, refl)

-- Receiving never succeeds: whatever the server sends, no call hands a sequence number or a size back,
-- and the number of the last received update stays as it was.
pub state_receive_update_never :
    (has_pointers : Bool) (h : Header) (room : ℕ) (dial : Dial) (first second : Option ℕ)
    (s : StateSync)
    → let r = state_receive_update has_pointers h room dial first second s in
      (r.status ≢ success)
      × (r.sequence ≡ none)
      × (r.data_size ≡ none)
      × (r.state.last_received_sequence ≡ s.last_received_sequence)
unfolding state_receive_update
state_receive_update_never has_pointers h room dial first second s =
    elim (Bool-cases (not has_pointers || room == 0)) [
      | inl e ↦ rw e (λ q. cc, refl, refl, refl)
      | inr e ↦
          let c =
            receive_connected_cases (state_sync_ensure_connected dial s) h room first second in
          rw e (
            c.0,
            c.1,
            c.2,
            ap (λ t. t.last_received_sequence) c.3
                ∙ ap (λ t. t.last_received_sequence) (ensure_connected_outcome dial s).1,
          )
    ]
