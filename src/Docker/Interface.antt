-- ===== src/Docker/Interface.antt =====
-- `DockerRoom` as a `Room`.
use keycard.Prelude.{ℕ, true, ℤ, Result, ok, err}
use keycard.Rooms.{Room, Backend}
use keycard.Docker.{
  Answer, Container, DockerRoom, destroy, pause, open_room, resume_room, destroy_kept,
}
use keycard.Docker.Channels.{read, write, resize, close}

-- `pause`: `DockerKept` holds the container's id.
unfoldable pub pause_room : ℕ → Answer → DockerRoom → Result ℕ × DockerRoom
pause_room container answer room =
    let (r, room') = pause answer room in (elim r [ err e ↦ err e | ok _ ↦ ok container ], room')

unfoldable pub container_room : ℕ → Room DockerRoom ℕ Answer (Result ℤ) Answer
container_room container = record {
  can_pause = true;
  read = read;
  write = write;
  resize = resize;
  destroy = destroy;
  pause = pause_room container;
}

-- `DockerBackend` as a `Backend`, on one container: the answers to `run` or `unpause`, to the resize and
-- to `attach_socket`.
unfoldable pub container_backend :
    Backend Container DockerRoom (Answer × Answer × Answer) (Answer × Answer × Answer) Answer Answer
container_backend = record {
  can_pause = true;
  open' = λ (run, size, socket) c. open_room run size socket;
  resume = λ (unpause, size, socket) c. resume_room unpause size socket c;
  destroy_kept = λ remove c. destroy_kept remove c;
  close = close;
}
