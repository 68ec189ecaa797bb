-- ===== src/Samples/Manifests.antt =====
-- A manifest with a timer panel.
use hydropark_gym.Prelude.{ℕ, true, Option, none, some}
use hydropark_gym.Prelude.Text.{Text, chars}
use hydropark_gym.Samples.Doc.{Doc, bool, num, str, arr, obj, nil, item, end, field, Fields, Items}

abbrev one : Doc → Doc
one v = arr (item v nil)

abbrev pub as_number : Doc → Option ℕ
as_number (num n) = some n
as_number _ = none

abbrev persona : Doc
persona = obj (
    field (chars "compressed_prompt") (str (chars "Cook."))
      (field (chars "system_prompt") (str (chars "You are a cook.")) end))

abbrev pub timer_panel : Text → Fields → Doc
timer_panel slot more = obj (
    field (chars "binds_state") (str slot) (
      field (chars "binds_tool") (str (chars "start_timer")) (
        field (chars "id") (str (chars "timers"))
          (field (chars "type") (str (chars "timer_stack")) more))))

abbrev pub manifest : Text → Items → Doc
manifest icon panels = obj (
    field (chars "capabilities") (one (str (chars "timers"))) (
      field (chars "category") (str (chars "Cooking")) (
        field (chars "id") (str (chars "sous-chef")) (
          field (chars "min_app_version") (str (chars "1.0.0")) (
            field (chars "name") (str (chars "Sous Chef")) (
              field (chars "persona") persona (
                field (chars "pricing") (obj (field (chars "free") (bool true) end)) (
                  field (chars "requirements")
                    (obj (field (chars "min_model_tier") (str (chars "small")) end))
                    (field (chars "resources") (obj (field (chars "assets") (one (str icon)) end)) (
                      field (chars "shared_state")
                        (one (
                          obj (
                            field (chars "access") (str (chars "read_write")) (
                              field (chars "schema") (str (chars "list<text>"))
                                (field (chars "slot") (str (chars "running")) end)))))
                        (field (chars "tools")
                          (one (
                            obj (
                              field (chars "ref") (str (chars "start_timer"))
                                (field (chars "writes_state") (one (str (chars "running"))) end))))
                          (field (chars "ui") (obj (field (chars "panels") (arr panels) end))
                            (field (chars "version") (str (chars "1.2.0-rc.1+7")) end)))))))))))))

abbrev shorthand : Fields
shorthand = field (chars "multi") (bool true) end

abbrev pub sous_chef : Doc
sous_chef = manifest (chars "icons/pan.svg") (item (timer_panel (chars "running") shorthand) nil)
