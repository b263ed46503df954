-- ===== src/Command/Expand.antt =====
-- The command with the templates of eddgen.go: what each of them writes for a design. The package regexp
-- is the parameter `replace_word`, and `depth` is the fuel for following references.
pub mod Generated
use eddwise.Base.{ℕ, Text, [], Option, none, some, Bool, true, false}
use eddwise.Design.Merge.{Design, structs_map}
use eddwise.Codegen.Client.{generate_client}
use eddwise.Codegen.Page.{skeleton_client}
use eddwise.Codegen.Server.{generate_server}
use eddwise.Codegen.ServerTest.{generate_server_test}
use eddwise.Codegen.Skeleton.{skeleton_main, skeleton_package, skeleton_package_test}
use eddwise.Command.{
  Template, server_tmpl, server_test_tmpl, client_tmpl, skeleton_main_tmpl, skeleton_package_tmpl,
  skeleton_package_test_tmpl, skeleton_page_tmpl, Host,
}

-- A template that fails has its text dropped: only that of the server can, which is written to a buffer.
abbrev pub complete : Option Text → Text × Bool
complete none = ([], false)
complete (some text) = (text, true)

module _ (replace_word : Text → Text → Text → Text) (depth : ℕ) (module_name : Text) where
  unfoldable pub expand : Template → Design → Text × Bool
  unfolding generate_server generate_server_test generate_client skeleton_main skeleton_package
      skeleton_package_test skeleton_client
  expand server_tmpl d = complete (generate_server replace_word depth (structs_map d).1 d)
  expand server_test_tmpl d = (generate_server_test module_name d, true)
  expand client_tmpl d = (generate_client d, true)
  expand skeleton_main_tmpl d = (skeleton_main module_name d, true)
  expand skeleton_package_tmpl d = (skeleton_package module_name d, true)
  expand skeleton_package_test_tmpl d = (skeleton_package_test module_name d, true)
  expand skeleton_page_tmpl d = (skeleton_client d, true)

  unfoldable pub with_templates : Host → Host
  unfolding expand
  with_templates host = record host { expand = expand }
