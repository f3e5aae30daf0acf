-- ===== src/Channels/Tests.antt =====
-- C/pipe.c, where the receiver is first and waits for the text.
use linux_riscv.Prelude.{◌≤◌, ◌≡◌, ◌⊎◌, refl}
use linux_riscv.Channels.{
  pipe, done, finished, message, State, forked, Step, close_reading, close_writing, send, receive,
  Reach, here, next,
}
use linux_riscv.Channels.Delivery.{steps, Reach-delivered}

received : (s : State) × Reach pipe s
unfolding forked message
received =
    let r₁ = next here (close_writing refl refl) in
    let r₂ = next r₁ (close_reading refl refl) in
    let r₃ = next r₂ (send refl) in (_, next r₃ (receive _ _ refl refl))

Reach-delivered_example :
    (steps received.1 ≤ 10)
    × (((t : State) × Step pipe received.0 t)
        ⊎ ((received.0.sender ≡ done) × (received.0.receiver ≡ finished (message pipe))))
Reach-delivered_example = Reach-delivered pipe received.1
