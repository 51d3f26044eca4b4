-- ===== src/Ui/Style.antt =====
-- The style sheet `CSS` of src/ui.rs.
use Prim.Native.String.{◌++◌}
use zincir.Prelude.{String}

unfoldable pub css : String
css =
    "\n"
    ++ ":root { color-scheme: dark; font-family: ui-monospace, SFMono-Regular, Menlo, monospace; background: #101411; color: #e7eee8; }\n"
    ++ "body { margin: 0; } main { max-width: 1160px; margin: 0 auto; padding: 32px 20px 64px; }\n"
    ++ "header { display: flex; gap: 10px; align-items: baseline; margin-bottom: 36px; color: #9bb0a0; } .brand { color: #b9ec75; font-size: 1.4rem; font-weight: 700; text-decoration: none; }\n"
    ++ "h1 { font-size: 1.25rem; overflow-wrap: anywhere; } h2 { margin-top: 36px; font-size: 1rem; color: #b9ec75; } a { color: #b9ec75; }\n"
    ++ "table { width: 100%; border-collapse: collapse; font-size: .84rem; } th { color: #9bb0a0; font-weight: 500; text-align: left; } th, td { border-bottom: 1px solid #27332a; padding: 12px 8px; vertical-align: top; } code, pre { font-family: inherit; } pre { margin: 10px 0 0; white-space: pre-wrap; overflow-wrap: anywhere; color: #c8d4ca; } details { border-bottom: 1px solid #27332a; padding: 11px 4px; } summary { cursor: pointer; } dl { display: grid; grid-template-columns: 100px 1fr; gap: 10px 18px; } dt { color: #9bb0a0; } dd { margin: 0; overflow-wrap: anywhere; }\n"
    ++ ".status { display: inline-block; border-radius: 99px; padding: 2px 8px; background: #29362c; } .status.running { background: #334628; color: #d5ff8c; } .status.failed { background: #512c2c; color: #ffb5b5; } .status.completed { background: #1f473d; color: #a7f5d7; } .empty { color: #9bb0a0; }\n"
    ++ "@media (max-width: 700px) { main { padding: 20px 12px; } table { display: block; overflow-x: auto; } }\n"
