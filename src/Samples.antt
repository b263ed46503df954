-- ===== src/Samples.antt =====
-- Concrete environments and worlds for the tests of the other modules.
use mathlib.Core.List.Perm
use eddwise.Base.{[], none, some, true, false, ite, ℕ_discrete}
use eddwise.World.{Env, IsFair, World, Client, Room, json_handle}

-- Every write succeeds, but that client 9 has lost its connection; maps are ranged over as they stand.
abbrev pub env : Env
env = record {
  order = λ A xs. xs;
  handle = json_handle;
  encode = λ m. some m.name;
  write_message = λ c bytes. ite (ℕ_discrete c 9) false true;
  write_json = λ c report. true;
}

pub env-IsFair : IsFair env
env-IsFair A xs = Perm.refl xs

abbrev pub guest : Client
guest = record { auth = none; rooms = []; state = none; m = []; closed = false }

abbrev pub nowhere : Room
nowhere = record { id = []; public = false; ch = []; clients_map = [] }

abbrev pub start : World
start = record {
  clients = λ c. guest;
  rooms = λ r. nowhere;
  next_room = 0;
  sent = [];
  reports = [];
}
