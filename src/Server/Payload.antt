-- ===== src/Server/Payload.antt =====
-- Payloads as one data type, for which the laws of `Json` hold.
use easytidy.Prelude.{ℕ, refl, Option, none, some}
use easytidy.Text.{Text}
use easytidy.Server.{Json}

pub data Payload : Type 0 where
  nothing : Payload
  stream : ℕ → Payload
  text : Text → Payload

abbrev pub stream_of : Payload → Option ℕ
stream_of nothing = none
stream_of (stream n) = some n
stream_of (text t) = none

abbrev pub json : Json
json = record {
  Value = Payload;
  null = nothing;
  pty_open = λ v. none;
  pty_resize = λ v. none;
  pty_close = stream_of;
  pty_cwd = stream_of;
  handshake = λ v. none;
  ui_edit = λ v. none;
  pty_open_resp = stream_of;
  pty_exited = stream_of;
  open_value = stream;
  list_value = λ ts. nothing;
  cwd_value = text;
  exited_value = λ n ok. stream n;
  cwd_changed_value = λ n t. stream n;
  ack_value = text;
  edit_value = text;
  edit_resp_value = λ ok t. text t;
  resp-open_value = λ n. refl;
  exited-exited_value = λ n ok. refl;
}
