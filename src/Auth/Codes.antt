-- ===== src/Auth/Codes.antt =====
-- `submitCode` in its stages.
use wechatcopilot.Prelude.{
  ℕ, suc, String, Bool, true, false, not, ◌&&◌, ◌||◌, List, [], ◌∷◌, ◌==◌, leb, ltb, nat_beq,
  length, codes, if◌then◌else◌, Result, ok, err,
}
use wechatcopilot.Driver.{state_auth_required}
use wechatcopilot.Auth.{AuthSnapshot, Entry, is_gone}

pub data CodeRefusal : Type 0 where
  bad_code gone code_in_flight already_submitted too_many_codes no_code_input : CodeRefusal

code_class : ℕ → Bool
code_class c =
    (leb b'0' c && leb c b'9')
    || (leb b'A' c && leb c b'Z')
    || (leb b'a' c && leb c b'z')
    || nat_beq c b'-'

all_code : List ℕ → Bool
unfolding code_class
all_code [] = true
all_code (c ∷ cs) = code_class c && all_code cs

-- `^[0-9A-Za-z-]{4,16}$`
unfoldable pub matches_code : String → Bool
unfolding all_code
matches_code s = let cs = codes s in leb 4 (length cs) && leb (length cs) 16 && all_code cs

-- A refusal leaves the count behind; the flag says whether the driver's snapshot is asked for.
unfoldable pub begin_code : ℕ → String → Entry → Entry × Result CodeRefusal (Unit {0})
begin_code now code e =
    let counted = record e { code_attempts = suc e.code_attempts } in
    if not (matches_code code)
    then (e, err bad_code)
    else if is_gone now e
    then (e, err gone)
    else if e.code_in_flight
    then (e, err code_in_flight)
    else if e.code_submitted
    then (e, err already_submitted)
    else if ltb 8 counted.code_attempts
    then (counted, err too_many_codes)
    else (record counted { code_in_flight = true }, ok tt)

-- `auth.AuthSMS`
abbrev pub auth_sms : String
auth_sms = "sms"

unfoldable pub accepts_code : AuthSnapshot → Bool
accepts_code snapshot =
    snapshot.state == state_auth_required && snapshot.kind == auth_sms && snapshot.can_submit_code

-- The deferred end: `accepted` says that no error came back.
unfoldable pub finish_code : Bool → Entry → Entry
finish_code accepted e = record e {
  code_in_flight = false;
  code_submitted = accepted || e.code_submitted;
}
