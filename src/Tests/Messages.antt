-- ===== src/Tests/Messages.antt =====
-- Receipts over a sender that counts its messages, and a server on a loopback address.
use commerce.Prelude.{
  ◌∷◌, ℕ, suc, pos, ◌≡◌, refl, ◌↔◌, true, false, [], ◌++◌, none, some, Text, text, trim_space,
  to_lower, to_upper, contains_any,
}
use commerce.Go.{Sentinel, sentinel, Error, errors_new, Context, Result, ok, err, is_ok}
use commerce.Notifications
use commerce.Notifications.{
  Receipt, MessageSpec, AttachmentSpec, Sender, Delivery, Notifier, Sent, receipt_spec,
  validate_receipt, safe_identifier, send_receipt, message_id, attachment_name,
}
use commerce.Notifications.Receipts.{receipt_spec_safe}
use commerce.Platform
use commerce.Platform.{
  Request, Net, Server, presents, authenticate, new_server, developer_authentication, loopback_host,
  address, start, stop, served, done,
}
use commerce.Platform.Authentication.{presents_iff, authenticate_lem, new_server_token}
use commerce.Platform.Lifecycle.{here, and_then, stops, Reach-bound}

abbrev receipt : Receipt
receipt = record {
  order_id = text "order-000001";
  sku = text "widget";
  quantity = pos 2;
  total_cents = pos 500;
  authorization_id = text "payment-000001";
}

receipt_valid : validate_receipt receipt ≡ ok tt
unfolding validate_receipt safe_identifier
receipt_valid = refl

abbrev mail_settings : Notifications.Settings
mail_settings = record {
  transport = text "test";
  from = text "shop@commerce.example";
  recipient = text "developer@commerce.example";
  test_capacity = pos 100;
  smtp_address = [];
  smtp_server_name = [];
  smtp_mode = text "starttls";
  smtp_username = [];
  smtp_password = [];
  timeout = pos 5;
  max_attempts = pos 1;
}

-- A message is the text of its body; instants are numbers.
abbrev compose : MessageSpec ℕ → Result Text
compose spec = ok spec.text_body

abbrev accepting : Sender Text ℕ
accepting = record { send = λ s ctx m. (none, suc s) }

abbrev refusing : Sender Text ℕ
refusing = record { send = λ s ctx m. (some (errors_new "550 mailbox full"), s) }

abbrev notifier : Notifier ℕ ℕ ℕ
notifier = record {
  settings = mail_settings;
  sender = 0;
  delivery = record { sender = 0; mode = text "test" };
  now = 7;
}

receipt_spec_safe_example :
    (contains_any (receipt_spec mail_settings notifier.now receipt).id (text "\r\n<>") ≡ false)
    × (contains_any (receipt_spec mail_settings notifier.now receipt).subject (text "\r\n<>")
        ≡ false)
    × ((a : AttachmentSpec) × ((receipt_spec mail_settings notifier.now receipt).attachments
          ≡ a ∷ [])
        × (contains_any a.filename (text "/\\\"\r\n") ≡ false))
receipt_spec_safe_example = receipt_spec_safe mail_settings notifier.now receipt receipt_valid

abbrev token : Text
token = text "0123456789abcdef"

presents_iff_example :
    (presents token (text "Bearer 0123456789abcdef") ≡ true)
    ↔ (text "Bearer 0123456789abcdef" ≡ text "Bearer " ++ token)
presents_iff_example = presents_iff token (text "Bearer 0123456789abcdef")

-- A network whose every address is one of the loopback; a context is who is attached to it.
abbrev pub net : Net ℕ ℕ ℕ
net = record {
  split_host = λ address. ok (text "127.0.0.1");
  is_loopback_ip = λ host. true;
  new_principal = λ subject issuer scopes. ok 1;
  with_principal = λ context principal. ok principal;
  http_error = λ message status. status;
}

abbrev pub echo : Platform.Handler ℕ ℕ
echo request = request.context

abbrev anonymous : Request ℕ
anonymous = record { authorization = text "Bearer 0123456789abcdef"; context = 0 }

authenticate_lem_example :
    (¬ (anonymous.authorization ≡ text "Bearer " ++ token)
      → authenticate net token 1 echo anonymous ≡ echo anonymous)
    × ((context : ℕ)
        → anonymous.authorization ≡ text "Bearer " ++ token
        → net.with_principal anonymous.context 1 ≡ ok context
        → authenticate net token 1 echo anonymous ≡ echo (record anonymous { context = context }))
    × ((e : Error)
        → anonymous.authorization ≡ text "Bearer " ++ token
        → net.with_principal anonymous.context 1 ≡ err e
        → authenticate net token 1 echo anonymous ≡ net.http_error "authentication unavailable" 500)
authenticate_lem_example = authenticate_lem net token 1 echo anonymous

abbrev server_settings : Platform.Settings
server_settings = record {
  address = text "127.0.0.1:8081";
  read_header_timeout = pos 5;
  read_timeout = pos 15;
  write_timeout = pos 15;
  idle_timeout = pos 60;
  developer_token = token;
}

abbrev local_server : Server ℕ ℕ
local_server = record {
  addr = text "127.0.0.1:8081";
  handler = authenticate net token 1 echo;
  read_header_timeout = pos 5;
  read_timeout = pos 15;
  write_timeout = pos 15;
  idle_timeout = pos 60;
  listener = none;
  started = false;
  shut_down = false;
  observed = false;
}

new_server_token_example :
    (host : Text) × (net.split_host local_server.addr ≡ ok host) × (loopback_host net host ≡ true)
unfolding new_server developer_authentication loopback_host trim_space contains_any to_lower
    to_upper
new_server_token_example = new_server_token net server_settings echo local_server refl refl

abbrev bound_server : Server ℕ ℕ
bound_server = record local_server { listener = some (text "127.0.0.1:8081"); started = true }

-- The server after a Stop that drained it.
abbrev drained_server : Server ℕ ℕ
drained_server = record bound_server { shut_down = true; observed = true }

Reach-bound_example :
    (drained_server ≡ record bound_server { shut_down = true; observed = true })
    × (drained_server.started ≡ true)
    × (address drained_server ≡ address bound_server)
    × ((listen : Text → Result Text) (ctx : Context)
        → is_ok (start listen drained_server ctx).0 ≡ false)
unfolding stop
Reach-bound_example =
    Reach-bound (and_then here (stops none (served (sentinel Sentinel.server_closed)) refl)) refl
