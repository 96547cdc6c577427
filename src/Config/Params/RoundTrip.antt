-- ===== src/Config/Params/RoundTrip.antt =====
-- A data format reads back the parameters that it has written.
use easytidy.Prelude.{◌≡◌, refl, ap, none, some}
use easytidy.Text.{codes}
use easytidy.Config.{ContainerParams, Serde}
use easytidy.Config.Format.{ok}
use easytidy.Config.Params.{
  Fields, no_fields, null_to_empty_vec, given, unless_empty, if_set, unless_none, encode_mode,
  decode_mode, serialize, visit_entry, visit_entries, build, deserialize,
}
use easytidy.Config.Params.Reading.{
  Fits, maps, done, more, Run-visits, visit-given, list_read, unless_empty_read, u32_read,
  text_read, flag_read, active_read, list_kept, option_kept, flag_kept, mode_kept,
}

-- The fields that are read back.
abbrev read_fields : ContainerParams → Fields
read_fields p = record {
  image = maps (λ x. x) (some p.image);
  mounts = maps (λ x. x) (some p.mounts);
  volumes = maps (λ x. x) (unless_empty p.volumes);
  network = maps (λ x. x) (some p.network);
  keep_id = maps (λ x. x) (some p.keep_id);
  uidmaps = maps (λ x. x) (unless_empty p.uidmaps);
  gidmaps = maps (λ x. x) (unless_empty p.gidmaps);
  user_uid = maps (λ x. some x) p.user_uid;
  user_gid = maps (λ x. some x) p.user_gid;
  user_name = maps (λ x. some x) p.user_name;
  gui_x11 = maps (λ x. x) (unless_none p.gui_x11);
  gui_wayland = maps (λ x. x) (unless_none p.gui_wayland);
  gpu_nvidia = maps (λ x. x) (if_set p.gpu_nvidia);
  gpu_amd = maps (λ x. x) (if_set p.gpu_amd);
  devices = maps (λ x. x) (some p.devices);
  extra_opts = maps (λ x. x) (some p.extra_opts);
  pid = maps (λ x. some x) p.pid;
  tmpfs_tmp = maps (λ x. x) (if_set p.tmpfs_tmp);
  tmpfs_run = maps (λ x. x) (if_set p.tmpfs_run);
}

build-read_fields : (p : ContainerParams) → build (read_fields p) p.image ≡ p
unfolding build
build-read_fields p =
    rw
      (
        list_kept p.volumes,
        list_kept p.uidmaps,
        list_kept p.gidmaps,
        option_kept p.user_uid,
        option_kept p.user_gid,
        option_kept p.user_name,
        mode_kept p.gui_x11,
        mode_kept p.gui_wayland,
        flag_kept p.gpu_nvidia,
        flag_kept p.gpu_amd,
        option_kept p.pid,
        flag_kept p.tmpfs_tmp,
        flag_kept p.tmpfs_run,
      )
      refl

module _ (s : Serde) (p : ContainerParams) (w : Fits p) where
  read_image :
      (f : Fields)
      → f.image ≡ none
      → visit_entries s (given (codes "image") s.text.encode (some p.image)) f
        ≡ ok (record f { image = maps (λ x. x) (some p.image) })
  unfolding visit_entry
  read_image f h =
      visit-given s (codes "image") s.text.encode (λ x. x) s.text.decode (λ f. f.image)
        (λ f x. record f { image = x }) (λ f v. refl) (λ f. refl) (some p.image) f h
        (s.text.read_back p.image tt)

  read_mounts :
      (f : Fields)
      → f.mounts ≡ none
      → visit_entries s (given (codes "mounts") s.mounts.encode (some p.mounts)) f
        ≡ ok (record f { mounts = maps (λ x. x) (some p.mounts) })
  unfolding visit_entry
  read_mounts f h =
      visit-given s (codes "mounts") s.mounts.encode (λ x. x)
        (λ v. null_to_empty_vec (s.mounts.decode v)) (λ f. f.mounts)
        (λ f x. record f { mounts = x }) (λ f v. refl) (λ f. refl) (some p.mounts) f h
        (list_read s s.mounts.decode s.mounts.encode p.mounts (s.mounts.read_back p.mounts tt))

  read_volumes :
      (f : Fields)
      → f.volumes ≡ none
      → visit_entries s (given (codes "volumes") s.volumes.encode (unless_empty p.volumes)) f
        ≡ ok (record f { volumes = maps (λ x. x) (unless_empty p.volumes) })
  unfolding visit_entry
  read_volumes f h =
      visit-given s (codes "volumes") s.volumes.encode (λ x. x)
        (λ v. null_to_empty_vec (s.volumes.decode v)) (λ f. f.volumes)
        (λ f x. record f { volumes = x }) (λ f v. refl) (λ f. refl) (unless_empty p.volumes) f h
        (unless_empty_read s s.volumes.decode s.volumes.encode p.volumes
          (s.volumes.read_back p.volumes tt))

  read_network :
      (f : Fields)
      → f.network ≡ none
      → visit_entries s (given (codes "network") s.network.encode (some p.network)) f
        ≡ ok (record f { network = maps (λ x. x) (some p.network) })
  unfolding visit_entry
  read_network f h =
      visit-given s (codes "network") s.network.encode (λ x. x) s.network.decode (λ f. f.network)
        (λ f x. record f { network = x }) (λ f v. refl) (λ f. refl) (some p.network) f h
        (s.network.read_back p.network w.ports)

  read_keep_id :
      (f : Fields)
      → f.keep_id ≡ none
      → visit_entries s (given (codes "keep_id") s.bool.encode (some p.keep_id)) f
        ≡ ok (record f { keep_id = maps (λ x. x) (some p.keep_id) })
  unfolding visit_entry
  read_keep_id f h =
      visit-given s (codes "keep_id") s.bool.encode (λ x. x) s.bool.decode (λ f. f.keep_id)
        (λ f x. record f { keep_id = x }) (λ f v. refl) (λ f. refl) (some p.keep_id) f h
        (s.bool.read_back p.keep_id tt)

  read_uidmaps :
      (f : Fields)
      → f.uidmaps ≡ none
      → visit_entries s (given (codes "uidmaps") s.mappings.encode (unless_empty p.uidmaps)) f
        ≡ ok (record f { uidmaps = maps (λ x. x) (unless_empty p.uidmaps) })
  unfolding visit_entry
  read_uidmaps f h =
      visit-given s (codes "uidmaps") s.mappings.encode (λ x. x)
        (λ v. null_to_empty_vec (s.mappings.decode v)) (λ f. f.uidmaps)
        (λ f x. record f { uidmaps = x }) (λ f v. refl) (λ f. refl) (unless_empty p.uidmaps) f h
        (unless_empty_read s s.mappings.decode s.mappings.encode p.uidmaps
          (s.mappings.read_back p.uidmaps w.uidmaps))

  read_gidmaps :
      (f : Fields)
      → f.gidmaps ≡ none
      → visit_entries s (given (codes "gidmaps") s.mappings.encode (unless_empty p.gidmaps)) f
        ≡ ok (record f { gidmaps = maps (λ x. x) (unless_empty p.gidmaps) })
  unfolding visit_entry
  read_gidmaps f h =
      visit-given s (codes "gidmaps") s.mappings.encode (λ x. x)
        (λ v. null_to_empty_vec (s.mappings.decode v)) (λ f. f.gidmaps)
        (λ f x. record f { gidmaps = x }) (λ f v. refl) (λ f. refl) (unless_empty p.gidmaps) f h
        (unless_empty_read s s.mappings.decode s.mappings.encode p.gidmaps
          (s.mappings.read_back p.gidmaps w.gidmaps))

  read_user_uid :
      (f : Fields)
      → f.user_uid ≡ none
      → visit_entries s (given (codes "user_uid") s.some_u32.encode p.user_uid) f
        ≡ ok (record f { user_uid = maps (λ x. some x) p.user_uid })
  unfolding visit_entry
  read_user_uid f h =
      visit-given s (codes "user_uid") s.some_u32.encode (λ x. some x) s.some_u32.decode
        (λ f. f.user_uid) (λ f x. record f { user_uid = x }) (λ f v. refl) (λ f. refl) p.user_uid f
        h (u32_read s p.user_uid w.user_uid)

  read_user_gid :
      (f : Fields)
      → f.user_gid ≡ none
      → visit_entries s (given (codes "user_gid") s.some_u32.encode p.user_gid) f
        ≡ ok (record f { user_gid = maps (λ x. some x) p.user_gid })
  unfolding visit_entry
  read_user_gid f h =
      visit-given s (codes "user_gid") s.some_u32.encode (λ x. some x) s.some_u32.decode
        (λ f. f.user_gid) (λ f x. record f { user_gid = x }) (λ f v. refl) (λ f. refl) p.user_gid f
        h (u32_read s p.user_gid w.user_gid)

  read_user_name :
      (f : Fields)
      → f.user_name ≡ none
      → visit_entries s (given (codes "user_name") s.some_text.encode p.user_name) f
        ≡ ok (record f { user_name = maps (λ x. some x) p.user_name })
  unfolding visit_entry
  read_user_name f h =
      visit-given s (codes "user_name") s.some_text.encode (λ x. some x) s.some_text.decode
        (λ f. f.user_name) (λ f x. record f { user_name = x }) (λ f v. refl) (λ f. refl) p.user_name
        f h (text_read s p.user_name)

  read_gui_x11 :
      (f : Fields)
      → f.gui_x11 ≡ none
      → visit_entries s (given (codes "gui_x11") (encode_mode s) (unless_none p.gui_x11)) f
        ≡ ok (record f { gui_x11 = maps (λ x. x) (unless_none p.gui_x11) })
  unfolding visit_entry
  read_gui_x11 f h =
      visit-given s (codes "gui_x11") (encode_mode s) (λ x. x) (decode_mode s) (λ f. f.gui_x11)
        (λ f x. record f { gui_x11 = x }) (λ f v. refl) (λ f. refl) (unless_none p.gui_x11) f h
        (active_read s p.gui_x11)

  read_gui_wayland :
      (f : Fields)
      → f.gui_wayland ≡ none
      → visit_entries s (given (codes "gui_wayland") (encode_mode s) (unless_none p.gui_wayland)) f
        ≡ ok (record f { gui_wayland = maps (λ x. x) (unless_none p.gui_wayland) })
  unfolding visit_entry
  read_gui_wayland f h =
      visit-given s (codes "gui_wayland") (encode_mode s) (λ x. x) (decode_mode s)
        (λ f. f.gui_wayland) (λ f x. record f { gui_wayland = x }) (λ f v. refl) (λ f. refl)
        (unless_none p.gui_wayland) f h (active_read s p.gui_wayland)

  read_gpu_nvidia :
      (f : Fields)
      → f.gpu_nvidia ≡ none
      → visit_entries s (given (codes "gpu_nvidia") s.bool.encode (if_set p.gpu_nvidia)) f
        ≡ ok (record f { gpu_nvidia = maps (λ x. x) (if_set p.gpu_nvidia) })
  unfolding visit_entry
  read_gpu_nvidia f h =
      visit-given s (codes "gpu_nvidia") s.bool.encode (λ x. x) s.bool.decode (λ f. f.gpu_nvidia)
        (λ f x. record f { gpu_nvidia = x }) (λ f v. refl) (λ f. refl) (if_set p.gpu_nvidia) f h
        (flag_read s p.gpu_nvidia)

  read_gpu_amd :
      (f : Fields)
      → f.gpu_amd ≡ none
      → visit_entries s (given (codes "gpu_amd") s.bool.encode (if_set p.gpu_amd)) f
        ≡ ok (record f { gpu_amd = maps (λ x. x) (if_set p.gpu_amd) })
  unfolding visit_entry
  read_gpu_amd f h =
      visit-given s (codes "gpu_amd") s.bool.encode (λ x. x) s.bool.decode (λ f. f.gpu_amd)
        (λ f x. record f { gpu_amd = x }) (λ f v. refl) (λ f. refl) (if_set p.gpu_amd) f h
        (flag_read s p.gpu_amd)

  read_devices :
      (f : Fields)
      → f.devices ≡ none
      → visit_entries s (given (codes "devices") s.texts.encode (some p.devices)) f
        ≡ ok (record f { devices = maps (λ x. x) (some p.devices) })
  unfolding visit_entry
  read_devices f h =
      visit-given s (codes "devices") s.texts.encode (λ x. x)
        (λ v. null_to_empty_vec (s.texts.decode v)) (λ f. f.devices)
        (λ f x. record f { devices = x }) (λ f v. refl) (λ f. refl) (some p.devices) f h
        (list_read s s.texts.decode s.texts.encode p.devices (s.texts.read_back p.devices tt))

  read_extra_opts :
      (f : Fields)
      → f.extra_opts ≡ none
      → visit_entries s (given (codes "extra_opts") s.texts.encode (some p.extra_opts)) f
        ≡ ok (record f { extra_opts = maps (λ x. x) (some p.extra_opts) })
  unfolding visit_entry
  read_extra_opts f h =
      visit-given s (codes "extra_opts") s.texts.encode (λ x. x)
        (λ v. null_to_empty_vec (s.texts.decode v)) (λ f. f.extra_opts)
        (λ f x. record f { extra_opts = x }) (λ f v. refl) (λ f. refl) (some p.extra_opts) f h
        (list_read s s.texts.decode s.texts.encode p.extra_opts (s.texts.read_back p.extra_opts tt))

  read_pid :
      (f : Fields)
      → f.pid ≡ none
      → visit_entries s (given (codes "pid") s.some_text.encode p.pid) f
        ≡ ok (record f { pid = maps (λ x. some x) p.pid })
  unfolding visit_entry
  read_pid f h =
      visit-given s (codes "pid") s.some_text.encode (λ x. some x) s.some_text.decode (λ f. f.pid)
        (λ f x. record f { pid = x }) (λ f v. refl) (λ f. refl) p.pid f h (text_read s p.pid)

  read_tmpfs_tmp :
      (f : Fields)
      → f.tmpfs_tmp ≡ none
      → visit_entries s (given (codes "tmpfs_tmp") s.bool.encode (if_set p.tmpfs_tmp)) f
        ≡ ok (record f { tmpfs_tmp = maps (λ x. x) (if_set p.tmpfs_tmp) })
  unfolding visit_entry
  read_tmpfs_tmp f h =
      visit-given s (codes "tmpfs_tmp") s.bool.encode (λ x. x) s.bool.decode (λ f. f.tmpfs_tmp)
        (λ f x. record f { tmpfs_tmp = x }) (λ f v. refl) (λ f. refl) (if_set p.tmpfs_tmp) f h
        (flag_read s p.tmpfs_tmp)

  read_tmpfs_run :
      (f : Fields)
      → f.tmpfs_run ≡ none
      → visit_entries s (given (codes "tmpfs_run") s.bool.encode (if_set p.tmpfs_run)) f
        ≡ ok (record f { tmpfs_run = maps (λ x. x) (if_set p.tmpfs_run) })
  unfolding visit_entry
  read_tmpfs_run f h =
      visit-given s (codes "tmpfs_run") s.bool.encode (λ x. x) s.bool.decode (λ f. f.tmpfs_run)
        (λ f x. record f { tmpfs_run = x }) (λ f v. refl) (λ f. refl) (if_set p.tmpfs_run) f h
        (flag_read s p.tmpfs_run)

  visits_all : visit_entries s (serialize s p) no_fields ≡ ok (read_fields p)
  unfolding serialize
  visits_all = Run-visits s (
      more (read_image _ refl) (
        more (read_mounts _ refl) (
          more (read_volumes _ refl) (
            more (read_network _ refl) (
              more (read_keep_id _ refl) (
                more (read_uidmaps _ refl) (
                  more (read_gidmaps _ refl) (
                    more (read_user_uid _ refl) (
                      more (read_user_gid _ refl) (
                        more (read_user_name _ refl) (
                          more (read_gui_x11 _ refl) (
                            more (read_gui_wayland _ refl) (
                              more (read_gpu_nvidia _ refl) (
                                more (read_gpu_amd _ refl) (
                                  more (read_devices _ refl) (
                                    more (read_extra_opts _ refl) (
                                      more (read_pid _ refl) (
                                        more (read_tmpfs_tmp _ refl)
                                          (more (read_tmpfs_run _ refl) (done))))))))))))))))))))

  -- Parameters with numbers in range are read back as they were, whichever fields were left out.
  pub deserialize-serialize : deserialize s (serialize s p) ≡ ok p
  unfolding deserialize
  deserialize-serialize = rw visits_all (ap ok (build-read_fields p))
