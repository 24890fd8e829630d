-- ===== src/Reports/Bundle.antt =====
-- WriteBundle of reports/report.go. What the file system does and what the encoders give are
-- arguments; a path is a directory and a name in it.
use aero_arc_testing_harness.Prelude.{
  ℤ, ◌≡◌, ◌≢◌, refl, ◌∙◌, [], ◌∷◌, ◌++◌, Option, none, some, Text, text, Outcome, ok, failed,
}
use aero_arc_testing_harness.Reports.Types.{Summary}
use aero_arc_testing_harness.Reports.Junit.{JunitSuites, to_junit}
use aero_arc_testing_harness.Reports.Markdown.{Printing, newline, markdown}

-- The calls change a world `W` and give an error or none.
pub record Files (W : Type 0) : Type 1 where
  pub make_directory : (directory : Text) → W → W × Option Text
  pub write_file : (directory name content : Text) → W → W × Option Text

pub record Encoders : Type 0 where
  pub marshal_json : Summary → Outcome Text
  pub marshal_junit : JunitSuites → Outcome Text
  pub three_decimals : ℤ → Text

abbrev pub summary_json : Text
summary_json = text "summary.json"

abbrev pub summary_md : Text
summary_md = text "summary.md"

abbrev pub junit_xml : Text
junit_xml = text "junit.xml"

-- xml.Header.
abbrev pub xml_header : Text
xml_header =
    text "<?xml version="
    ++ 34 ∷ text "1.0"
    ++ 34 ∷ text " encoding="
    ++ 34 ∷ text "UTF-8"
    ++ 34 ∷ text "?>"
    ++ newline ∷ []

module _ {W : Type 0} where
  -- An error that is not nil ends the function, wrapped in the name of what was tried.
  unfoldable pub unless_failed :
      (what : Text) → W × Option Text → (W → W × Option Text) → W × Option Text
  unless_failed what (w, none) continue = continue w
  unless_failed what (w, some e) continue = (w, some (what ++ e))

  unfoldable pub with_encoded :
      (what : Text) → Outcome Text → W → (Text → W → W × Option Text) → W × Option Text
  with_encoded what (failed e) w continue = (w, some (what ++ e))
  with_encoded what (ok encoded) w continue = continue encoded w

  -- What goes through has gone through every call.
  unless_failed-elim :
      (P : W × Option Text → Type 0) (what : Text) (r : W × Option Text)
      (continue : W → W × Option Text)
      → (unless_failed what r continue).1 ≡ none
      → (r.1 ≡ none → (continue r.0).1 ≡ none → P (continue r.0))
      → P (unless_failed what r continue)
  unfolding unless_failed
  unless_failed-elim P what (w, none) continue h f = f refl h
  unless_failed-elim P what (w, some e) continue h f = cc

  with_encoded-elim :
      (P : W × Option Text → Type 0) (what : Text) (o : Outcome Text) (w : W)
      (continue : Text → W → W × Option Text)
      → (with_encoded what o w continue).1 ≡ none
      → ((t : Text) → o ≡ ok t → (continue t w).1 ≡ none → P (continue t w))
      → P (with_encoded what o w continue)
  unfolding with_encoded
  with_encoded-elim P what (failed e) w continue h f = cc
  with_encoded-elim P what (ok t) w continue h f = f t refl h

junit-json : junit_xml ≢ summary_json
junit-json e = cc

md-json : summary_md ≢ summary_json
md-json e = cc

junit-md : junit_xml ≢ summary_md
junit-md e = cc

module _ {W : Type 0} (files : Files W) (encoders : Encoders) (print : Printing) where
  unfoldable pub write_bundle : (directory : Text) → Summary → W → W × Option Text
  write_bundle directory s w =
      unless_failed (text "create report directory: ") (files.make_directory directory w) (λ w1.
        with_encoded (text "encode JSON summary: ") (encoders.marshal_json s) w1 (λ json w2.
          unless_failed (text "write JSON summary: ")
            (files.write_file directory summary_json (json ++ newline ∷ []) w2)
            (λ w3.
              unless_failed (text "write Markdown summary: ")
                (files.write_file directory summary_md (markdown print s) w3)
                (λ w4.
                  with_encoded (text "encode JUnit summary: ")
                    (encoders.marshal_junit (to_junit encoders.three_decimals s)) w4
                    (λ junit w5.
                      unless_failed (text "write JUnit summary: ")
                        (files.write_file directory junit_xml (xml_header ++ junit ++ newline ∷ [])
                          w5)
                        (λ w6. (w6, none)))))))

  -- What a file holds after a write that reports no error, and that a write leaves other files of
  -- the directory alone.
  pub record Keeps (read : (directory name : Text) → W → Option Text) : Type 0 where
    pub written :
        (directory name content : Text) (w : W)
        → (files.write_file directory name content w).1 ≡ none
        → read directory name (files.write_file directory name content w).0 ≡ some content
    pub others :
        (directory name other content : Text) (w : W)
        → name ≢ other
        → read directory other (files.write_file directory name content w).0
          ≡ read directory other w

  -- The files of a bundle.
  pub record HasBundle (read : (directory name : Text) → W → Option Text) (directory : Text)
      (s : Summary) (w : W) : Type 0 where
    pub json :
        (t : Text) × (encoders.marshal_json s ≡ ok t)
        × (read directory summary_json w ≡ some (t ++ newline ∷ []))
    pub md : read directory summary_md w ≡ some (markdown print s)
    pub junit :
        (t : Text) × (encoders.marshal_junit (to_junit encoders.three_decimals s) ≡ ok t)
        × (read directory junit_xml w ≡ some (xml_header ++ t ++ newline ∷ []))

  -- If WriteBundle reports no error, then all three files of the directory hold what was made of
  -- the summary.
  pub write_bundle-HasBundle :
      (read : (directory name : Text) → W → Option Text) (directory : Text) (s : Summary) (w : W)
      → Keeps read
      → (write_bundle directory s w).1 ≡ none
      → HasBundle read directory s (write_bundle directory s w).0
  unfolding write_bundle
  write_bundle-HasBundle read directory s w keeps h =
      let P : W × Option Text → Type 0 = λ r. HasBundle read directory s r.0 in
      unless_failed-elim P _ (files.make_directory directory w) _ h (λ made h1.
        with_encoded-elim P _ (encoders.marshal_json s) _ _ h1 (λ json j h2.
          unless_failed-elim P _ _ _ h2 (λ w2 h3. unless_failed-elim P _ _ _ h3 (λ w3 h4.
            with_encoded-elim P _ _ _ _ h4 (λ junit x h5. unless_failed-elim P _ _ _ h5 (λ w5 h6.
              record {
                json = (
                  json,
                  j,
                  keeps.others directory junit_xml summary_json _ _ junit-json
                      ∙ keeps.others directory summary_md summary_json _ _ md-json
                      ∙ keeps.written directory summary_json _ _ w2,
                );
                md =
                    keeps.others directory junit_xml summary_md _ _ junit-md
                    ∙ keeps.written directory summary_md _ _ w3;
                junit = (junit, x, keeps.written directory junit_xml _ _ w5);
              }))))))
