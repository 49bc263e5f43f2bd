-- ===== src/Handlers/Targets.antt =====
-- internal/api/handlers/validation.go, validateAlertTarget: the destination of an alert channel. The
-- two regular expressions are written out; a webhook's URL, which goes to the DNS, is a parameter.
use Prim.Native.Char.{code}
use upguardly_server.Base.{
  ℕ, Bool, true, false, ◌&&◌, ◌||◌, List, [], ◌∷◌, String, ◌==◌, leb, length,
}
use upguardly_server.Models.Plan.{AlertChannel, email, sms, discord, slack, telegram}

abbrev pub codes : String → List ℕ
codes String.[] = []
codes (String.◌∷◌ c s) = code c ∷ codes s

abbrev is_digit : ℕ → Bool
is_digit c = leb b'0' c && leb c b'9'

abbrev is_letter : ℕ → Bool
is_letter c = (leb b'A' c && leb c b'Z') || (leb b'a' c && leb c b'z')

abbrev is_word : ℕ → Bool
is_word c = is_letter c || (is_digit c || c == b'_')

abbrev every : (ℕ → Bool) → List ℕ → Bool
every p [] = true
every p (c ∷ cs) = p c && every p cs

-- `p{least,most}` up to the end of the text.
abbrev repeated : (ℕ → Bool) → ℕ → ℕ → List ℕ → Bool
repeated p least most cs = leb least (length cs) && (leb (length cs) most && every p cs)

-- `^\+[1-9]\d{6,14}$`
unfoldable pub e164 : List ℕ → Bool
e164 (plus ∷ first ∷ rest) =
    plus == b'+' && ((leb b'1' first && leb first b'9') && repeated is_digit 6 14 rest)
e164 _ = false

abbrev signed_number : List ℕ → Bool
signed_number [] = false
signed_number (c ∷ cs) = (c == b'-' && repeated is_digit 1 20 cs) || repeated is_digit 1 20 (c ∷ cs)

abbrev user_name : List ℕ → Bool
user_name (at ∷ first ∷ rest) = at == b'@' && (is_letter first && repeated is_word 4 31 rest)
user_name _ = false

-- `^(-?\d{1,20}|@[A-Za-z][A-Za-z0-9_]{4,31})$`
unfoldable pub telegram_chat_id : List ℕ → Bool
telegram_chat_id cs = signed_number cs || user_name cs

-- `validateAlertTarget`; `webhook_ok` stands for the check of a webhook's URL and addresses.
unfoldable pub validate_alert_target : (String → Bool) → AlertChannel → String → Bool
unfolding e164 telegram_chat_id
validate_alert_target webhook_ok email target = true
validate_alert_target webhook_ok sms target = e164 (codes target)
validate_alert_target webhook_ok telegram target = telegram_chat_id (codes target)
validate_alert_target webhook_ok discord target = webhook_ok target
validate_alert_target webhook_ok slack target = webhook_ok target
validate_alert_target webhook_ok (AlertChannel.other name) target = true
