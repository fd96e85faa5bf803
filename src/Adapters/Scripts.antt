-- ===== src/Adapters/Scripts.antt =====
-- internal/adapters/litellm/minter.go: the Python scripts that run inside the container.
use localclaw.Common.{String, ◌<>◌}

abbrev pub ready_script : String
ready_script =
    "import sys, urllib.request\n"
    <> ("try:\n"
        <> ("    with urllib.request.urlopen(\"http://127.0.0.1:4000/health/readiness\", timeout=5) as r:\n"
            <> ("        sys.exit(0 if r.status == 200 else 1)\n"
                <> ("except Exception as e:\n"
                    <> ("    print(e, file=sys.stderr)\n" <> ("    sys.exit(1)\n"))))))

abbrev pub mint_script : String
mint_script =
    "import json, os, sys, urllib.request\n"
    <> ("key = os.environ.get(\"LITELLM_MASTER_KEY\")\n"
        <> ("if not key:\n"
            <> ("    print(\"LITELLM_MASTER_KEY is not set in the container\", file=sys.stderr)\n"
                <> ("    sys.exit(1)\n"
                    <> ("body = json.dumps({\"key_alias\": sys.argv[1], \"metadata\": {\"created_by\": \"lclaw\"}}).encode()\n"
                        <> ("req = urllib.request.Request(\"http://127.0.0.1:4000/key/generate\", data=body, method=\"POST\",\n"
                            <> ("    headers={\"Authorization\": \"Bearer \" + key, \"Content-Type\": \"application/json\"})\n"
                                <> ("with urllib.request.urlopen(req, timeout=30) as r:\n"
                                    <> ("    print(json.load(r)[\"key\"])\n")))))))))

abbrev pub revoke_script : String
revoke_script =
    "import json, os, sys, urllib.request\n"
    <> ("key = os.environ.get(\"LITELLM_MASTER_KEY\")\n"
        <> ("if not key:\n"
            <> ("    print(\"LITELLM_MASTER_KEY is not set in the container\", file=sys.stderr)\n"
                <> ("    sys.exit(1)\n"
                    <> ("value = sys.stdin.readline().rstrip(\"\\n\")\n"
                        <> ("body = json.dumps({\"keys\": [value]}).encode()\n"
                            <> ("req = urllib.request.Request(\"http://127.0.0.1:4000/key/delete\", data=body, method=\"POST\",\n"
                                <> ("    headers={\"Authorization\": \"Bearer \" + key, \"Content-Type\": \"application/json\"})\n"
                                    <> ("with urllib.request.urlopen(req, timeout=30) as r:\n"
                                        <> ("    r.read()\n" <> ("print(\"ok\")\n")))))))))))
