-- ===== src/Dynamo/Tests.antt =====
-- A table that is a function from keys, as a service of which the laws hold, and authorization codes
-- in it. The text of a record tells when it was consumed; the records are those of one code.
use encore_mcp_base.Base.{
  ℕ, zero, suc, String, ◌≡◌, refl, sym, ap, ◌∙◌, arith, true, false, Option, none, some, List, [],
  ◌∷◌, Bool-cases, inl, inr, all, some_inj, ok, err, if◌then◌else◌,
}
use encore_mcp_base.Store.Records.{AuthorizationCodeRecord, empty_store_state, invalid_grant_error}
use encore_mcp_base.Store.Codes.{mark_consumed}
use encore_mcp_base.Store.Tests.{store, sha}
use encore_mcp_base.Store.Tests.Codes.{code_input, code_record, expected, verifier}
use encore_mcp_base.Dynamo.Items.{Item, Key, read_string, read_number, parse_stored_record}
use encore_mcp_base.Dynamo.Service.{Service, Write, holds, written}
use encore_mcp_base.Dynamo.Codes.{
  create_authorization_code, read_authorization_code, mark_authorization_code,
  consume_authorization_code,
}
use encore_mcp_base.Dynamo.Codes.Races.{
  Request, at_request, waiting, validated, granted, reads, marks, Reach, here, next, granted_once,
}
use encore_mcp_base.Dynamo.Codes.Sequences.{
  CodeCall, creates, redeems, Answer, created, redeemed, disk_step, disk_answers, table_step,
  table_answers, table_answers-disk_answers,
}

abbrev Contents : Type 0
Contents = Key → Option Item

abbrev write_contents : Contents → List Write → Option Contents
write_contents t ws =
    if all (λ w. holds w.condition (t w.key)) ws then some (λ key. written ws key (t key)) else none

contents_made :
    (t u : Contents) (ws : List Write)
    → write_contents t ws ≡ some u
    → (all (λ w. holds w.condition (t w.key)) ws ≡ true)
      × ((key : Key) → u key ≡ written ws key (t key))
contents_made t u ws h = elim (Bool-cases (all (λ w. holds w.condition (t w.key)) ws)) [
  | inl hold ↦ (hold, λ key. ap (λ v. v key) (sym (some_inj (rw hold at h))))
  | inr fail ↦ absurd (ground (arith, fail))
]

contents_refused :
    (t : Contents) (ws : List Write)
    → write_contents t ws ≡ none
    → all (λ w. holds w.condition (t w.key)) ws ≡ false
contents_refused t ws h = elim (Bool-cases (all (λ w. holds w.condition (t w.key)) ws)) [
  | inl hold ↦ absurd (ground (arith, hold))
  | inr fail ↦ fail
]

abbrev contents : Service
contents = record {
  Table = Contents;
  get_item = λ t key. t key;
  write = write_contents;
  write_made = contents_made;
  write_refused = contents_refused;
}

abbrev empty : Contents
empty key = none

-- n + 1 marks for the time n.
abbrev marks_of : ℕ → String
marks_of zero = String.◌∷◌ "x" String.[]
marks_of (suc n) = String.◌∷◌ "x" (marks_of n)

abbrev time_text : Option ℕ → String
time_text none = ""
time_text (some n) = marks_of n

abbrev later : Option ℕ → Option ℕ
later none = some 0
later (some n) = some (suc n)

abbrev time_of : String → Option ℕ
time_of String.[] = none
time_of (String.◌∷◌ c s) = later (time_of s)

abbrev stringify : AuthorizationCodeRecord → String
stringify r = time_text r.consumed_at

abbrev parse : String → Option AuthorizationCodeRecord
parse s = some (record code_record { consumed_at = time_of s })

abbrev IsStorable : AuthorizationCodeRecord → Type 0
IsStorable r = r ≡ record code_record { consumed_at = r.consumed_at }

time_of-time_text : (o : Option ℕ) → time_of (time_text o) ≡ o
time_of-time_text none = refl
time_of-time_text (some zero) = refl
time_of-time_text (some (suc n)) = ap later (time_of-time_text (some n))

mark-IsStorable :
    (r : AuthorizationCodeRecord) (now : ℕ) → IsStorable r → IsStorable (mark_consumed now r)
mark-IsStorable r now e = ap (mark_consumed now) e

parse-stringify : (r : AuthorizationCodeRecord) → IsStorable r → parse (stringify r) ≡ some r
parse-stringify r e =
    ap (λ o. some (record code_record { consumed_at = o })) (time_of-time_text r.consumed_at)
    ∙ ap some (sym e)

table : Unit {0}
unfolding store read_string read_number parse_stored_record create_authorization_code
    read_authorization_code mark_authorization_code consume_authorization_code disk_step
    disk_answers table_step table_answers
table = tt

abbrev calls : List (ℕ × CodeCall)
calls =
    (100, creates code_input "code")
    ∷ (110, redeems "code" (some verifier) expected)
    ∷ (120, redeems "code" (some verifier) expected)
    ∷ []

abbrev answers : List Answer
answers =
    created (ok "code")
    ∷ redeemed (ok (mark_consumed 110 code_record))
    ∷ redeemed (err invalid_grant_error)
    ∷ []

answered : disk_answers sha empty_store_state calls ≡ answers
unfolding table
answered = refl

table_answers-disk_answers_example :
    table_answers contents sha stringify parse empty calls
    ≡ disk_answers sha empty_store_state calls
unfolding table
table_answers-disk_answers_example =
    table_answers-disk_answers contents sha stringify parse IsStorable mark-IsStorable
      parse-stringify 1 empty empty_store_state calls (λ hash. tt)
      (
        omega arith,
        omega arith,
        (refl, refl),
        (omega arith, omega arith, tt, (omega arith, omega arith, tt, tt)),
      )

abbrev with_item : Contents
with_item = (create_authorization_code contents sha stringify parse code_input "code" 100 empty).1

abbrev asked : ℕ → Request
asked i = waiting

-- Two requests read the code before either marks it.
raced :
    Reach contents sha stringify parse "code"
      (record { table = with_item; requests = asked })
      (record {
        table =
            (mark_authorization_code contents sha stringify parse "code" code_record 110
              with_item).1;
        requests =
            at_request
              (at_request
                (at_request asked 0 (validated code_record 110))
                1
                (validated code_record 111))
              0
              (granted (mark_consumed 110 code_record));
      })
unfolding table
raced =
    next
      (next (next here (reads 0 (some verifier) expected 110 refl))
        (reads 1 (some verifier) expected 111 refl))
      (marks 0 code_record 110 refl)

granted_once_example : ◌≡◌ {A = ℕ} 0 0
granted_once_example = granted_once contents sha stringify parse "code" (λ i. refl) raced 0 0 tt tt
