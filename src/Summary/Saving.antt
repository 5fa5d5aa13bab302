-- ===== src/Summary/Saving.antt =====
-- When summarization.py stores a summary, and what the stored summary stands for.
use xymphony_voice.Base.{
  ℕ, ◌≡◌, refl, ◌⊎◌, inl, inr, Bool, true, false, ◌||◌, none, some, List, [], ◌∷◌, length, map,
  arith, if◌then◌else◌,
}
use xymphony_voice.Base.Text.{Text, is_empty, strip}
use xymphony_voice.Base.Result.{ok, err, ◌>>=◌, >>=-eq-ok}
use xymphony_voice.Errors.{Raises, provider_error}
use xymphony_voice.Conversation.{Message}
use xymphony_voice.Assembler.{LlmConfig, LlmRequest}
use xymphony_voice.Summary.{ConversationSummary, Preparation, Pairs, Streamed, Job, Outcome}
use xymphony_voice.Summary.Prepare.{
  except_provider, newly_uncovered, max_sequence, make_summary, text_of, summary_fits,
  generate_summary, whole, kept, through, save, place, shorten, summarise, cover,
}

module _ (estimate : Text → ℕ) (stream : Bool → LlmRequest → Streamed) (config : LlmConfig)
    (job : Job) where
  -- The text comes from the model, asked about the dropped messages that no earlier summary covers:
  -- from the first generation, or, where its text does not fit the budget, from the shorter one. It
  -- is not blank and no cancellation was read after its generation.
  pub data Generated (max_tokens : ℕ) (pairs dropped : Pairs) (text : Text) : Type 0 where
    at_once :
        generate_summary estimate stream config
            (text_of job.existing)
            (newly_uncovered pairs (through estimate stream config job) dropped)
            false
          ≡ ok text
        → job.after_first ≡ false
        → is_empty (strip text) ≡ false
        → Generated max_tokens pairs dropped text
    shorter :
        (long : Text)
        → generate_summary estimate stream config
            (text_of job.existing)
            (newly_uncovered pairs (through estimate stream config job) dropped)
            false
          ≡ ok long
        → summary_fits estimate stream config long job.current_user_text max_tokens ≡ ok false
        → generate_summary estimate stream config
            (text_of job.existing)
            (newly_uncovered pairs (through estimate stream config job) dropped)
            true
          ≡ ok text
        → (job.after_first ≡ false) × (job.after_shorter ≡ false)
        → is_empty (strip text) ≡ false
        → Generated max_tokens pairs dropped text

  -- What a text was kept for: it is not blank, and no cancellation was read after it.
  abbrev Kept : Bool → Text → Type 0
  Kept stopped text = (stopped ≡ false) × (is_empty (strip text) ≡ false)

  -- The stored summary stands for the dropped messages, and its text is the model's, and fits.
  pub record Saved (max_tokens : ℕ) (pairs dropped recent : Pairs) (prep : Preparation)
      (summary : ConversationSummary) : Type 0 where
    pub text : Text
    pub generated : Generated max_tokens pairs dropped text
    pub shown : summary.summary_text ≡ strip text
    pub fits : summary_fits estimate stream config text job.current_user_text max_tokens ≡ ok true
    pub given : prep.summary_text ≡ some summary.summary_text
    pub history : prep.history_for_assembly ≡ map (λ pair. pair.0) recent
    pub through : summary.through_sequence ≡ max_sequence pairs dropped
    pub counted : summary.source_message_count ≡ length dropped
    pub uncancelled : (job.before_build ≡ false) × (job.before_save ≡ false)

  module _ (max_tokens : ℕ) (pairs dropped recent : Pairs) (prep : Preparation)
      (summary : ConversationSummary) where
    save-Saved :
        (text : Text)
        → Generated max_tokens pairs dropped text
        → summary_fits estimate stream config text job.current_user_text max_tokens ≡ ok true
        → save estimate stream config job pairs dropped recent text ≡ ok (prep, some summary)
        → Saved max_tokens pairs dropped recent prep summary
    unfolding save make_summary
    save-Saved text made fits h = record {
      text = text;
      generated = made;
      shown = ground arith;
      fits = fits;
      given = ground arith;
      history = ground arith;
      through = ground arith;
      counted = ground arith;
      uncancelled = ground arith;
    }

    place-Saved :
        (stopped : Bool) (dropping : Preparation) (otherwise : Raises Outcome) (text : Text)
        → place estimate stream config job stopped
            (dropping, none)
            otherwise
            max_tokens
            pairs
            dropped
            recent
            text
          ≡ ok (prep, some summary)
        → (Kept stopped text → Generated max_tokens pairs dropped text)
        → Saved max_tokens pairs dropped recent prep summary
          ⊎ (Kept stopped text
              × (summary_fits estimate stream config text job.current_user_text max_tokens
                  ≡ ok false)
              × (otherwise ≡ ok (prep, some summary)))
    unfolding place
    place-Saved stopped dropping otherwise text h made =
        go (stopped || is_empty (strip text))
          (summary_fits estimate stream config text job.current_user_text max_tokens) refl refl h
      where
        kept_text : (stopped || is_empty (strip text)) ≡ false → Kept stopped text
        kept_text k = (ground (arith, k), ground (arith, k))

        go :
            (stop : Bool) (fits : Raises Bool)
            → (stopped || is_empty (strip text)) ≡ stop
            → summary_fits estimate stream config text job.current_user_text max_tokens ≡ fits
            → (let r : Raises Outcome =
                  if stop
                  then ok (dropping, none)
                  else (fits >>= λ good.
                      if good
                      then save estimate stream config job pairs dropped recent text
                      else otherwise) in
                r)
              ≡ ok (prep, some summary)
            → Saved max_tokens pairs dropped recent prep summary
              ⊎ (Kept stopped text
                  × (summary_fits estimate stream config text job.current_user_text max_tokens
                      ≡ ok false)
                  × (otherwise ≡ ok (prep, some summary)))
        go true fits k f h = cc
        go false (err e) k f h = cc
        go false (ok true) k f h = inl (save-Saved text (made (kept_text k)) f h)
        go false (ok false) k f h = inr (kept_text k, f, h)

    except_provider-blank :
        (r : Raises Text) (text : Text)
        → except_provider r [] ≡ ok text
        → is_empty (strip text) ≡ false
        → r ≡ ok text
    unfolding except_provider strip
    except_provider-blank (ok s) text h filled = h
    except_provider-blank (err (provider_error x)) text h filled =
        absurd (ground (arith, h, filled))
    except_provider-blank (err e) text h filled = absurd (cc h)

    shorten-Saved :
        (long : Text)
        → generate_summary estimate stream config
            (text_of job.existing)
            (newly_uncovered pairs (through estimate stream config job) dropped)
            false
          ≡ ok long
        → summary_fits estimate stream config long job.current_user_text max_tokens ≡ ok false
        → job.after_first ≡ false
        → shorten estimate stream config job max_tokens pairs dropped recent
            (newly_uncovered pairs (through estimate stream config job) dropped)
          ≡ ok (prep, some summary)
        → Saved max_tokens pairs dropped recent prep summary
    unfolding shorten
    shorten-Saved long first large live h =
        let messages = newly_uncovered pairs (through estimate stream config job) dropped in
        let (text, made, rest) =
          >>=-eq-ok
            (except_provider
              (generate_summary estimate stream config (text_of job.existing) messages true) [])
            _ h in
        elim (place-Saved job.after_shorter (whole estimate stream config job).0
          (ok (whole estimate stream config job)) text rest
          (λ k. shorter long first large (except_provider-blank _ text made k.1) (live, k.0) k.1)) [
            | inl saved ↦ saved
            | inr e ↦ cc
          ]

    summarise-Saved :
        summarise estimate stream config job max_tokens pairs dropped recent
            (newly_uncovered pairs (through estimate stream config job) dropped)
          ≡ ok (prep, some summary)
        → Saved max_tokens pairs dropped recent prep summary
    unfolding summarise
    summarise-Saved h =
        go
          (generate_summary estimate stream config (text_of job.existing)
            (newly_uncovered pairs (through estimate stream config job) dropped) false)
          refl h
      where
        go :
            (r : Raises Text)
            → generate_summary estimate stream config
                (text_of job.existing)
                (newly_uncovered pairs (through estimate stream config job) dropped)
                false
              ≡ r
            → (elim r as (λ _. Raises Outcome) [
              | err (provider_error _) ↦ ok (whole estimate stream config job)
              | err e ↦ err e
              | ok text ↦
                  place estimate stream config job job.after_first
                    (kept estimate stream config job recent)
                    (shorten estimate stream config job max_tokens pairs dropped recent
                      (newly_uncovered pairs (through estimate stream config job) dropped))
                    max_tokens
                    pairs
                    dropped
                    recent
                    text
            ])
              ≡ ok (prep, some summary)
            → Saved max_tokens pairs dropped recent prep summary
        go (ok text) made h =
            elim (place-Saved job.after_first (kept estimate stream config job recent).0 _ text h
              (λ k. at_once made k.0 k.1)) [
                | inl saved ↦ saved
                | inr (k, large, e) ↦ shorten-Saved text made large k.0 e
              ]
        go (err (provider_error x)) made h = cc
        go (err e) made h = cc

    pub cover-Saved :
        cover estimate stream config job max_tokens pairs dropped recent ≡ ok (prep, some summary)
        → (job.before_first ≡ false) × Saved max_tokens pairs dropped recent prep summary
    unfolding cover
    cover-Saved h =
        go (newly_uncovered pairs (through estimate stream config job) dropped) job.before_first
          refl refl h
      where
        go :
            (messages : List Message) (stop : Bool)
            → newly_uncovered pairs (through estimate stream config job) dropped ≡ messages
            → job.before_first ≡ stop
            → (elim messages as (λ _. Raises Outcome) [
              | [] ↦ ok (kept estimate stream config job recent)
              | message ∷ more ↦
                  if stop
                  then ok (kept estimate stream config job recent)
                  else summarise estimate stream config job max_tokens pairs dropped recent
                      (message ∷ more)
            ])
              ≡ ok (prep, some summary)
            → (job.before_first ≡ false) × Saved max_tokens pairs dropped recent prep summary
        go [] stop m e h = cc
        go (message ∷ more) true m e h = cc
        go (message ∷ more) false m e h = (e, summarise-Saved (rw m h))
