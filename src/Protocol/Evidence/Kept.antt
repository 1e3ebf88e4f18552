-- ===== src/Protocol/Evidence/Kept.antt =====
-- What is kept of the reply to an exploratory query.
use ha_aiper_ble.Prelude.{
  ℕ, zero, suc, ◌≤◌, String, ◌≡◌, refl, sym, ap, Bool, true, Option, none, some, [], ◌∷◌, arith,
  length, take, All, length-take, if_elim,
}
use ha_aiper_ble.Prelude.Text.{Text}
use ha_aiper_ble.Prelude.Optional.{option_elim}
use ha_aiper_ble.Outcome.{Exception, Result, ok, err, other}
use ha_aiper_ble.Value.{Value, Fields, str, get, end, as_dict, as_str}
use ha_aiper_ble.Protocol.Evidence.{
  is_reply_char, sanitized, reply_text_limit, reply_line, reply_evidence, source_of, dumped,
  crc_and_result_valid, exploratory_text_evidence, is_machine, exploratory_evidence,
}

sanitized-IsReply : (s : Text) (n : ℕ) → All (λ c. is_reply_char c ≡ true) (take n (sanitized s))
unfolding sanitized
sanitized-IsReply s zero = tt
sanitized-IsReply [] (suc n) = tt
sanitized-IsReply (c ∷ s) (suc n) = (
  if_elim (λ (d : ℕ). is_reply_char d ≡ true) (is_reply_char c) (λ good. good) (λ bad. refl),
  sanitized-IsReply s n,
)

-- a text that may be kept
abbrev pub IsKept : Option Value → Type 0
IsKept none = Unit
IsKept (some (str s)) = (length s ≤ reply_text_limit) × All (λ c. is_reply_char c ≡ true) s
IsKept (some _) = ⊥

unfoldable Keeps : Result Fields → Type 0
Keeps r = (e : Fields) → r ≡ ok e → IsKept (get e "reply_text")

Keeps-ok : (f : Fields) → IsKept (get f "reply_text") → Keeps (ok f)
unfolding Keeps
Keeps-ok f h e same =
    let eq : e ≡ f = sym (ap (λ (r : Result Fields). elim r [ err x ↦ end | ok x ↦ x ]) same) in
    rw eq h

Keeps-err : (x : Exception) → Keeps (err x)
unfolding Keeps
Keeps-err x e h = cc

reply_evidence-IsKept :
    (query_type source : String) (response : Fields) (s : Text) (valid : Bool)
    → IsKept (get (reply_evidence query_type source response s valid) "reply_text")
unfolding reply_evidence get
reply_evidence-IsKept query_type source response s valid =
    (omega (arith, length-take 96 (sanitized (reply_line s))), sanitized-IsReply (reply_line s) 96)

text_evidence-Keeps :
    (query_type : String) (response fields : Fields) (o : Option Text)
    → Keeps (exploratory_text_evidence query_type response fields o)
unfolding exploratory_text_evidence get
text_evidence-Keeps query_type response fields none = Keeps-ok _ tt
text_evidence-Keeps query_type response fields (some s) =
    option_elim Keeps (dumped fields) _ (err other)
      (λ encoded made. Keeps-ok _ (
        reply_evidence-IsKept query_type (source_of fields) response s
          (crc_and_result_valid response encoded)))
      (λ lacks. Keeps-err other)

-- Whatever a robot replies to an exploratory query, the text that its evidence keeps has at most 96
-- characters, each a letter, a digit, a space or one of the marks that are listed.
pub exploratory_evidence-IsKept :
    (response : Fields) (query_type : String) (evidence : Fields)
    → exploratory_evidence response query_type ≡ ok evidence
    → IsKept (get evidence "reply_text")
unfolding exploratory_evidence Keeps get
exploratory_evidence-IsKept response query_type evidence h =
    let kept : Keeps (exploratory_evidence response query_type) =
      if_elim Keeps (is_machine response)
        (λ machine.
          option_elim Keeps (as_dict (get response "data")) _ (ok end)
            (λ fields found.
              text_evidence-Keeps query_type response fields
                (as_str (get fields (source_of fields))))
            (λ lacks. Keeps-ok end tt))
        (λ foreign. Keeps-ok end tt) in
    kept evidence h
