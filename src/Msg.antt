-- ===== src/Msg.antt =====
-- src/captp/msg.rs and src/captp/msg/: the descriptors and operations of CapTP, over the type
-- `Args` of argument sequences (`syrup::Sequence`). The `Encode` and `Decode` implementations are
-- derived by the syrup crate: they are parameters of the modules that send and receive (Wire).
use rexa.Common.{ℕ, Option, Bytes, codes}
use rexa.Locator.{NodeLocator}

pub record DescExport : Type 0 where
  pub position : ℕ

abbrev pub export_at : ℕ → DescExport
export_at position = record { position = position }

pub record DescImportObject : Type 0 where
  pub position : ℕ

abbrev pub object_of_export : DescExport → DescImportObject
object_of_export d = record { position = d.position }

pub record DescImportPromise : Type 0 where
  pub position : ℕ

pub data DescImport : Type 0 where
  object : DescImportObject → DescImport
  promise : DescImportPromise → DescImport

-- `DescImport::default()`, the descriptor of the bootstrap object.
abbrev pub default_import : DescImport
default_import = object (record { position = 0 })

abbrev pub import_position : DescImport → ℕ
import_position (object d) = d.position
import_position (promise d) = d.position

pub record OpDeliverOnly (Args : Type 0) : Type 0 where
  pub to_desc : DescExport
  pub args : Args

pub record OpDeliver (Args : Type 0) : Type 0 where
  pub to_desc : DescExport
  pub args : Args
  pub answer_pos : Option ℕ
  pub resolve_me_desc : DescImport

-- `OpDeliverOnly::new` and `OpDeliver::new`.
abbrev pub deliver_only_new : {Args : Type 0} → DescExport → Args → OpDeliverOnly Args
deliver_only_new to_desc args = record { to_desc = to_desc; args = args }

abbrev pub deliver_new :
    {Args : Type 0} → DescExport → Args → Option ℕ → DescImport → OpDeliver Args
deliver_new to_desc args answer_pos resolve_me_desc = record {
  to_desc = to_desc;
  args = args;
  answer_pos = answer_pos;
  resolve_me_desc = resolve_me_desc;
}

pub record OpAbort : Type 0 where
  pub reason : Bytes

pub data Operation (Args : Type 0) : Type 0 where
  deliver_only : OpDeliverOnly Args → Operation Args
  deliver : OpDeliver Args → Operation Args
  abort : OpAbort → Operation Args

pub record PublicKey (VerifyingKey : Type 0) : Type 0 where
  pub ecc : VerifyingKey

pub record Signature (Sig : Type 0) : Type 0 where
  pub eddsa : Sig

-- `CAPTP_VERSION` of src/lib.rs.
abbrev pub captp_version : Bytes
captp_version = codes "1.0"

pub record OpStartSession (VerifyingKey Sig : Type 0) : Type 0 where
  pub version : Bytes
  pub session_pubkey : PublicKey VerifyingKey
  pub acceptable_location : NodeLocator
  pub acceptable_location_sig : Signature Sig

-- `OpStartSession::new` writes this crate's version.
unfoldable pub start_session :
    {VerifyingKey Sig : Type 0}
    → PublicKey VerifyingKey
    → NodeLocator
    → Signature Sig
    → OpStartSession VerifyingKey Sig
start_session key location sig = record {
  version = captp_version;
  session_pubkey = key;
  acceptable_location = location;
  acceptable_location_sig = sig;
}

pub record DescHandoffGive (VerifyingKey : Type 0) : Type 0 where
  pub receiver_key : PublicKey VerifyingKey
  pub exporter_location : NodeLocator
  pub session : Bytes
  pub gifter_side : Bytes
  pub gift_id : Bytes

pub record DescHandoffReceive (VerifyingKey : Type 0) : Type 0 where
  pub receiving_session : Bytes
  pub receiving_side : Bytes
  pub handoff_count : ℕ
  pub signed_give : DescHandoffGive VerifyingKey
