-- ===== src/Docker/Stranded.antt =====
-- A container that is attached to in vain.
use keycard.Prelude.{◌≡◌, ◌⊎◌, arith, err, docker_error}
use keycard.Docker.{Answer, done, refused, active, open_room}

-- A container has been started, and attaching to it is refused: `open` raises, and the container
-- goes on running, with nothing that would remove it.
pub failed_attach_strands_container :
    (resize : Answer)
    → (resize ≡ done) ⊎ (resize ≡ refused)
    → open_room done resize refused ≡ (err docker_error, active)
unfolding open_room
failed_attach_strands_container resize h = ground arith
