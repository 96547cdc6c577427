-- ===== src/Config/Tests.antt =====
-- A data format whose values are the values that it is given, and parameters with some fields left out.
use easytidy.Prelude.{ℕ, ◌≡◌, refl, Bool, none, some, List, arith}
use easytidy.Text.{Text, codes}
use easytidy.PathVars.{MountConfig}
use easytidy.Config.{VolumeMount, IdMapping, NetworkConfig, ContainerParams, default_params, Serde}
use easytidy.Config.Format.{ok, Visit, visit_bool, visit_str, other}
use easytidy.Config.Mode.{bypass}
use easytidy.Config.Params.{serialize, deserialize}
use easytidy.Config.Params.Reading.{Fits}
use easytidy.Config.Params.RoundTrip.{deserialize-serialize}

data Data : Type 0 where
  nothing : Data
  text : Text → Data
  flag : Bool → Data
  number : ℕ → Data
  network : NetworkConfig → Data
  mounts : List MountConfig → Data
  volumes : List VolumeMount → Data
  mappings : List IdMapping → Data
  texts : List Text → Data

visits : Data → Visit
visits (text t) = visit_str t
visits (flag b) = visit_bool b
visits _ = other

plain : Serde
plain = record {
  Value = Data;
  null = nothing;
  visits = visits;
  text = record {
    encode = text;
    decode = λ v. elim v [ text t ↦ some t | _ ↦ none ];
    read_back = λ a w. refl;
  };
  bool = record {
    encode = flag;
    decode = λ v. elim v [ flag b ↦ some b | _ ↦ none ];
    read_back = λ a w. refl;
  };
  network = record {
    encode = network;
    decode = λ v. elim v [ network n ↦ some n | _ ↦ none ];
    read_back = λ a w. refl;
  };
  mounts = record {
    encode = mounts;
    decode = λ v. elim v [ mounts l ↦ some (some l) | nothing ↦ some none | _ ↦ none ];
    read_back = λ a w. refl;
    read_null = refl;
  };
  volumes = record {
    encode = volumes;
    decode = λ v. elim v [ volumes l ↦ some (some l) | nothing ↦ some none | _ ↦ none ];
    read_back = λ a w. refl;
    read_null = refl;
  };
  mappings = record {
    encode = mappings;
    decode = λ v. elim v [ mappings l ↦ some (some l) | nothing ↦ some none | _ ↦ none ];
    read_back = λ a w. refl;
    read_null = refl;
  };
  texts = record {
    encode = texts;
    decode = λ v. elim v [ texts l ↦ some (some l) | nothing ↦ some none | _ ↦ none ];
    read_back = λ a w. refl;
    read_null = refl;
  };
  some_u32 = record {
    encode = number;
    decode = λ v. elim v [ number n ↦ some (some n) | nothing ↦ some none | _ ↦ none ];
    read_back = λ a w. refl;
    read_null = refl;
  };
  some_text = record {
    encode = text;
    decode = λ v. elim v [ text t ↦ some (some t) | nothing ↦ some none | _ ↦ none ];
    read_back = λ a w. refl;
    read_null = refl;
  };
  text_visits = λ t. unfold visits in refl;
}

abbrev box : ContainerParams
box = record default_params {
  image = codes "docker.io/library/debian:12";
  user_uid = some 1000;
  gui_x11 = bypass;
  pid = some (codes "host");
}

box-Fits : Fits box
box-Fits = record { ports = tt; uidmaps = tt; gidmaps = tt; user_uid = omega arith; user_gid = tt }

round_trip_example : deserialize plain (serialize plain box) ≡ ok box
round_trip_example = deserialize-serialize plain box box-Fits
