-- ===== src/Confirm/Tests.antt =====
-- A code sent, tried and used; a link used twice.
use fos_mono.Common.{
  String, String_discrete, true, false, [], ◌∷◌, none, some, ◌≡◌, ◌≢◌, ◌↔◌, refl, arith, ◌==◌,
}
use fos_mono.Common.Rows.{HasDistinctIds, HasNoId, update_row}
use fos_mono.Node.{str}
use fos_mono.Confirm.{
  Deps, confirmed, sent, fail, sent_to, confirm, confirm_code, confirm_link, confirm_account,
  approve, start_confirmation, mask_destination, resend,
}
use fos_mono.Confirm.Users.{Account, email, phone, World, mailed, account_id, by_name}
use fos_mono.Confirm.Approval.{IsRightCode, confirm_code_iff, start_confirmation-confirm_code}
use fos_mono.Confirm.Link.{HasNoToken, HasDistinctTokens, confirm_link_once}
use fos_mono.Confirm.History.{start, step, resending, IsApproved, Reach-IsApproved}

differ : (s t : String) → (s == t) ≡ false → s ≢ t
differ s t h = ground arith

abbrev deps : Deps
deps = record {
  hash_code = λ code name. code;
  has_sms = true;
  sms_configured = none;
  delivery_error = λ m. none;
}

abbrev ann : Account
ann = record {
  id = 1;
  user_name = "ann";
  email_address = some "ann@home.org";
  phone_number = none;
  approved = false;
  channel = none;
  code_hash = none;
  expiration = none;
  link_token = none;
}

abbrev bob : Account
bob = record ann {
  id = 2;
  user_name = "bob";
  email_address = none;
  phone_number = some "+15551234567";
}

abbrev waiting : Account
waiting = record ann {
  channel = some email;
  code_hash = some "123456";
  expiration = some 900007;
  link_token = some "link";
}

abbrev before : World
before = record { accounts = ann ∷ bob ∷ []; outbox = []; phones = [] }

abbrev mailed_out : World
mailed_out = record {
  accounts = waiting ∷ bob ∷ [];
  outbox = mailed "ann@home.org" "123456" "link" ∷ [];
  phones = [];
}

abbrev after_link : World
after_link = record mailed_out { accounts = record ann { approved = true } ∷ bob ∷ [] }

start_test :
    start_confirmation deps ann email "123456" "link" 7 before
    ≡ (sent_to email "an…@home.org", mailed_out)
unfolding start_confirmation mask_destination update_row String_discrete
start_test = refl

mask_test : mask_destination phone "+15551234567" ≡ "+15…67"
unfolding mask_destination
mask_test = refl

link_test : confirm_link "link" mailed_out ≡ (confirmed "ann", after_link)
unfolding confirm_link confirm_account approve update_row String_discrete
link_test = refl

code_test :
    confirm deps none (some (str " ann ")) (some (str "123456")) 900007 mailed_out
    ≡ (confirmed "ann", after_link)
unfolding confirm confirm_code confirm_account approve update_row String_discrete
code_test = refl

wrong_test :
    (confirm deps none (some (str "ann")) (some (str "654321")) 8 mailed_out
      ≡ (fail 400 "Wrong code.", mailed_out))
    × (confirm deps none (some (str "ann")) (some (str "123456")) 900008 mailed_out
        ≡ (fail 410 "That code expired; request a new one.", mailed_out))
unfolding confirm confirm_code confirm_account approve update_row String_discrete
wrong_test = (refl, refl)

resend_test :
    resend deps (some (str "ann")) "123456" "link" 7 before
    ≡ (sent (some (email, "an…@home.org")), mailed_out)
unfolding resend start_confirmation mask_destination update_row String_discrete
resend_test = refl

confirm_code_iff_example :
    (confirm_code deps "ann" "123456" 8 mailed_out ≡ (confirmed "ann", after_link)) ↔ (
      (user : Account) × ((by_name "ann" mailed_out.accounts ≡ some user)
        × (IsRightCode deps "ann" "123456" 8 user
            × (("ann" ≡ user.user_name) × (after_link ≡ approve user mailed_out)))))
unfolding String_discrete
confirm_code_iff_example =
    confirm_code_iff deps "ann" "123456" 8 mailed_out after_link "ann" (differ "ann" "" refl)
      (differ "123456" "" refl)

before-HasDistinctIds : HasDistinctIds account_id before.accounts
unfolding HasDistinctIds HasNoId
before-HasDistinctIds = ((λ e. omega (arith, e), tt), (tt, tt))

mailed_out-HasDistinctIds : HasDistinctIds account_id mailed_out.accounts
unfolding HasDistinctIds HasNoId
mailed_out-HasDistinctIds = ((λ e. omega (arith, e), tt), (tt, tt))

ann_test : by_name "ann" before.accounts ≡ some ann
unfolding String_discrete
ann_test = refl

start_confirmation-confirm_code_example :
    (w : World) × (confirm_code deps "ann" "123456" 900007 mailed_out ≡ (confirmed "ann", w))
unfolding String_discrete
start_confirmation-confirm_code_example =
    start_confirmation-confirm_code deps ann email email "123456" "link" "an…@home.org" 7 before
      mailed_out before-HasDistinctIds ann_test refl (differ "ann" "" refl)
      (differ "123456" "" refl) (differ "123456" "" refl) start_test 900007 (omega arith)

mailed_out-HasDistinctTokens : HasDistinctTokens mailed_out.accounts
unfolding HasDistinctTokens HasNoToken
mailed_out-HasDistinctTokens = (λ t h. (λ e. ground arith, tt), (λ t h. absurd (ground arith), tt))

confirm_link_once_example :
    confirm_link "link" after_link
    ≡ (fail 404 "This confirmation link is invalid or was already used.", after_link)
confirm_link_once_example =
    confirm_link_once "link" "ann" mailed_out after_link mailed_out-HasDistinctIds
      mailed_out-HasDistinctTokens link_test

after_link-HasDistinctIds : HasDistinctIds account_id after_link.accounts
unfolding HasDistinctIds HasNoId
after_link-HasDistinctIds = ((λ e. omega (arith, e), tt), (tt, tt))

after_link-IsApproved : IsApproved "ann" after_link
unfolding IsApproved String_discrete
after_link-IsApproved = (record ann { approved = true }, (refl, refl))

again_test : resend deps (some (str "ann")) "9" "l" 9 after_link ≡ (sent none, after_link)
unfolding resend start_confirmation mask_destination update_row String_discrete
again_test = refl

Reach-IsApproved_example : IsApproved "ann" after_link
Reach-IsApproved_example =
    Reach-IsApproved "ann" after_link-HasDistinctIds after_link-IsApproved
      (step start (resending (some (str "ann")) "9" "l" 9 _ again_test))
