-- ===== src/Podman/Create/Tests.antt =====
-- A container with a volume, a folder of the host, and two ports of the host for one of its own.
use easytidy.Prelude.{◌≡◌, refl, arith, true, false, Option, none, some, List, [], ◌∷◌}
use easytidy.Lists.{find}
use easytidy.Text.{Text, codes, text_eq, strip_prefix}
use easytidy.Text.White.{trim, is_white}
use easytidy.PathVars.{MountConfig}
use easytidy.Config.{PortMapping, mapped, ContainerParams, ContainerConfig, default_params}
use easytidy.Podman.Mounts.{validate_mount}
use easytidy.Podman.Body.{portmappings, unwrap_or}
use easytidy.Podman.Create.{
  Answers, ContainerBins, ready, ok, Bindings, bind_network, resolve_container_user,
}
use easytidy.Podman.Create.Request.{IsCreatable, Requested, create_inner-request}
use easytidy.Podman.Create.Ports.{for, bind_network-last}

abbrev ports : List PortMapping
ports =
    record { host_port = 8080; container_port = 80; protocol = [] }
    ∷ record { host_port = 9090; container_port = 80; protocol = codes "tcp" }
    ∷ []

abbrev params : ContainerParams
params = record default_params {
  volumes = record { name = codes "data"; container_path = codes "/data"; read_only = true } ∷ [];
  network = record { mode = mapped; ports = ports };
  user_uid = some 1000;
  user_gid = some 1000;
  tmpfs_tmp = true;
}

abbrev config : ContainerConfig
config = record { name = codes "dev"; params = params; env = []; silent_boot = false; icon = none }

abbrev home : List MountConfig
home = record { host_path = codes "/home/u"; container_path = codes "/mnt"; read_only = true } ∷ []

abbrev answers : Answers
answers = record {
  image_exists = true;
  socket_host_dir = codes "/run/user/1000/easytidy/dev";
  user = none;
  volume_ensure = λ name. true;
  expand = λ uid gid. some home;
  exists = λ path. true;
  amd_gpu = [];
  nvidia_gpu = ready;
}

abbrev bins : ContainerBins
bins = record { server = codes "/bin/server"; dock = codes "/bin/dock"; ets = none }

config-IsCreatable : IsCreatable answers config false (1000, 1000) home
unfolding trim is_white strip_prefix resolve_container_user validate_mount
config-IsCreatable = record {
  image = refl;
  volumes = ((refl, refl, refl), tt);
  user_known = refl;
  expands = refl;
  binds = (refl, tt);
  ports = (refl, (refl, tt));
  amd = refl;
  nvidia = refl;
}

create_inner-request_example :
    Requested answers
      (codes "dev")
      (codes "dev")
      (codes "image")
      bins
      config
      false
      (1000, 1000)
      home
create_inner-request_example =
    create_inner-request answers (codes "dev") (codes "dev") (codes "image") bins config false
      (1000, 1000) home config-IsCreatable

-- The first port of the host is not published.
bind_network-last_example :
    (n : Option Text × Option Bindings) × (bind_network mapped ports ≡ ok n)
    × (find (for 80 (codes "tcp")) (portmappings (unwrap_or [] n.1))
        ≡ some (record {
          host_ip = [];
          host_port = 9090;
          container_port = 80;
          protocol = codes "tcp";
        }))
unfolding text_eq
bind_network-last_example =
    bind_network-last ports 80 (codes "tcp")
      ((omega arith, omega arith), ((omega arith, omega arith), tt)) (refl, (refl, tt))
