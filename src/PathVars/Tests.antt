-- ===== src/PathVars/Tests.antt =====
-- Runs of the expansion of paths.
use easytidy.Prelude.{◌≡◌, ◌≢◌, refl, true, none, some, List, [], ◌∷◌, ◌++◌}
use easytidy.Lists.{any}
use easytidy.Text.{codes, contains}
use easytidy.Text.Split.{Free-of-any}
use easytidy.PathVars.{
  PathVars, MountConfig, ok, unknown_var, stuck, expand_path, expand_mounts, container_path_vars,
  needs_image_passwd, contains_var,
}
use easytidy.PathVars.Expand.{expand_path-ne-stuck}
use easytidy.PathVars.Templates.{
  Segment, literal, home, braced, sources, meanings, expand_path-segments,
}
use easytidy.PathVars.Probe.{needs_image_passwd-expand_mounts}

abbrev host : PathVars
host = record { home = codes "/home/ada"; user = codes "ada"; uid = 1000; gid = 1000 }

abbrev pictures : List Segment
pictures = home ∷ literal (codes "/p") ∷ []

segments_example :
    (expand_path (sources pictures) host ≡ ok (meanings host pictures))
    × (expand_path (sources pictures ++ (codes "${" ++ codes "X")) host
        ≡ ok (meanings host pictures ++ (codes "${" ++ codes "X")))
    × (expand_path (sources pictures ++ (braced (codes "X") ++ codes "/t")) host
        ≡ unknown_var (codes "X"))
unfolding any
segments_example =
    expand_path-segments host pictures (codes "X") (codes "/t")
      (Free-of-any b'$' (codes "/p") refl, tt) (Free-of-any b'}' (codes "X") refl)
      (λ e. cc, λ e. cc, λ e. cc, λ e. cc)

abbrev mounts : List MountConfig
mounts =
    record { host_path = codes "${HOME}/d"; container_path = codes "/d"; read_only = true } ∷ []

probe_example :
    expand_mounts mounts host (container_path_vars 1000 1000 none none)
    ≡ expand_mounts mounts host
        (container_path_vars 1000 1000 none (some (codes "root:x:0:0:root:/root:/bin/sh\n")))
unfolding needs_image_passwd any contains_var contains
probe_example =
    needs_image_passwd-expand_mounts mounts host 1000 1000 none
      (codes "root:x:0:0:root:/root:/bin/sh\n") refl (λ e. cc)

ne-stuck_example : expand_path (codes "${HOME") host ≢ stuck
ne-stuck_example = expand_path-ne-stuck (codes "${HOME") host
