-- ===== src/RuleRuns/Applied.antt =====
-- `apply_mail_rule_preview` of crates/imail-storage-sqlite/src/rules.rs, called again.
use i_mail.Base.{ℕ, ◌≡◌, refl, Bool, false, ◌&&◌, none, List, [], ◌∷◌, All, All-map, arith, ltb}
use i_mail.Base.Table.{find_where, delete_where-All_not}
use i_mail.Base.Texts.{Text, text_eq}
use i_mail.Base.Result.{ok, err, Returns-bind, Returns-any, Returns-ok, ok_or}
use i_mail.RuleRuns.Types.{RuleStore, MessageRow, PreviewRow, invalid_content_data}
use i_mail.RuleRuns.Matches.{load_rules}
use i_mail.RuleRuns.Previews.{
  is_open_preview, is_revision, enable, apply_each, apply_mail_rule_preview,
}

find_where-All_none :
    {A : Type 0} (p : A → Bool) (xs : List A) → All (λ x. p x ≡ false) xs → find_where p xs ≡ none
find_where-All_none p [] h = refl
find_where-All_none p (x ∷ xs) h = rw h.0 (find_where-All_none p xs h.1)

closed_parts : (a b c : Bool) → a ≡ false → (a && b && c) ≡ false
closed_parts a b c h = ground (arith, h)

-- A preview that was applied is refused when it is applied again, by any owner and at any time.
pub apply_once :
    (to_lowercase : Text → Text) (fingerprint : MessageRow → Text) (fresh : ℕ → ℕ → Text)
    (owner token : Text) (now later : ℕ) (s s' : RuleStore) (count : ℕ)
    → apply_mail_rule_preview to_lowercase fingerprint fresh owner token now later s
      ≡ ok (count, s')
    → (fresh' : ℕ → ℕ → Text) (owner' : Text) (now' later' : ℕ)
    → apply_mail_rule_preview to_lowercase fingerprint fresh' owner' token now' later' s'
      ≡ err invalid_content_data
unfolding apply_mail_rule_preview
apply_once to_lowercase fingerprint fresh owner token now later s s' count e fresh' owner' now'
      later' =
    let Gone =
      λ (r : ℕ × RuleStore). All (λ (p : PreviewRow). text_eq p.id token ≡ false) r.1.previews in
    let preview =
      ok_or invalid_content_data
        (find_where (is_open_preview to_lowercase fingerprint owner token now) s.previews) in
    let gone =
      Returns-ok Gone
        (apply_mail_rule_preview to_lowercase fingerprint fresh owner token now later s) (count, s')
        e
        (Returns-bind (λ p. Unit) Gone preview _ (Returns-any preview)
          (λ p _ _.
            Returns-bind (λ r. Unit) Gone
              (ok_or invalid_content_data (
                find_where (is_revision to_lowercase fingerprint p.rule_id p.revision)
                  (load_rules owner s)))
              _
              (Returns-any (
                ok_or invalid_content_data (
                  find_where (is_revision to_lowercase fingerprint p.rule_id p.revision)
                    (load_rules owner s))))
              (λ rule _ _.
                Returns-bind (λ r. Unit) Gone
                  (apply_each to_lowercase fingerprint fresh 0 owner
                    (enable to_lowercase fingerprint rule) later p.messages 0 s)
                  _
                  (Returns-any (
                    apply_each to_lowercase fingerprint fresh 0 owner
                      (enable to_lowercase fingerprint rule) later p.messages 0 s))
                  (λ (n, t) _ _. delete_where-All_not (λ p. text_eq p.id token) t.previews)))) in
    rw
      (find_where-All_none (is_open_preview to_lowercase fingerprint owner' token now') s'.previews
        (All-map (λ p. text_eq p.id token ≡ false)
          (λ p. is_open_preview to_lowercase fingerprint owner' token now' p ≡ false)
          (λ p h.
            closed_parts (text_eq p.id token) (text_eq p.user_id owner') (ltb now' p.expires_at) h)
          s'.previews gone))
      refl
