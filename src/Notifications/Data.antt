-- ===== src/Notifications/Data.antt =====
-- notifications/: the settings, receipts and results, what is asked of messages and senders, and the
-- delivery and the notifier.
use commerce.Prelude.{ℤ, Bool, List, Option, Text, text_eq}
use commerce.Go.{Error, Context, Result}

pub record Settings : Type 0 where
  pub transport : Text
  pub from : Text
  pub recipient : Text
  pub test_capacity : ℤ
  pub smtp_address : Text
  pub smtp_server_name : Text
  pub smtp_mode : Text
  pub smtp_username : Text
  pub smtp_password : Text
  pub timeout : ℤ
  pub max_attempts : ℤ

pub record Receipt : Type 0 where
  pub order_id : Text
  pub sku : Text
  pub quantity : ℤ
  pub total_cents : ℤ
  pub authorization_id : Text

-- The `Result` of the package.
pub record Sent : Type 0 where
  pub message_id : Text
  pub transport : Text
  pub accepted : Bool
  pub attachment : Text

-- `mail.AttachmentSpec` and `mail.MessageSpec`, over a type of instants.
pub record AttachmentSpec : Type 0 where
  pub filename : Text
  pub content_type : Text
  pub contents : Text

pub record MessageSpec (T : Type 0) : Type 0 where
  pub id : Text
  pub date : T
  pub from : Text
  pub to : List Text
  pub subject : Text
  pub text_body : Text
  pub attachments : List AttachmentSpec

-- `mail.Sender` over its own state.
pub record Sender (M S : Type 0) : Type 0 where
  pub send : S → Context → M → Option Error × S

-- What the package calls: the address parser of `net/mail`, which gives the parsed address,
-- `mail.NewMessage`, and the constructors of the two transports.
pub record Mail (T M S : Type 0) : Type 0 where
  pub parse_address : Text → Result Text
  pub new_message : MessageSpec T → Result M
  pub new_test : ℤ → Result S
  pub new_smtp : Settings → Result S

-- The delivery: the state of its transport, and the mode. The test sender, if there is one, is the
-- transport itself.
pub record Delivery (S : Type 0) : Type 0 where
  pub sender : S
  pub mode : Text

-- The notifier: its clock is the instant that it gives next.
pub record Notifier (T S D : Type 0) : Type 0 where
  pub settings : Settings
  pub sender : S
  pub delivery : Delivery D
  pub now : T
