-- ===== src/UnixSocket/Tests.antt =====
-- A client that asks for a connection before the server listens, under a name of an earlier run.
use linux_riscv.Prelude.{◌≤◌, ◌⊎◌, refl}
use linux_riscv.UnixSocket.{
  old, State, begun, Step, Reach, here, next, server_unlink, server_socket, bind, listen,
  client_socket, refused, write_fails, close_unheard,
}
use linux_riscv.UnixSocket.Ends.{Over, steps, Reach-Over}

too_early : (s : State) × Reach old s
unfolding begun
too_early =
    let r₁ = next here (client_socket refl) in
    let r₂ = next r₁ (server_unlink refl) in
    let r₃ = next r₂ (server_socket refl) in
    let r₄ = next r₃ (bind refl refl) in
    let r₅ = next r₄ (refused refl refl) in
    let r₆ = next r₅ (listen refl) in
    let r₇ = next r₆ (write_fails refl) in (_, next r₇ (close_unheard refl))

Reach-Over_example :
    (steps too_early.1 ≤ 12)
    × (((t : State) × Step too_early.0 t) ⊎ Over too_early.0.server too_early.0.client)
Reach-Over_example = Reach-Over old too_early.1
